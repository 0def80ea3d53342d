-- ===== src/LocalApi.antt =====
-- local_api/service.py: the calls that other pods of the device make of the agent. A response's
-- fields are as its protobuf constructor is given them. `context.abort` raises, so the call ends as
-- `aborted`, always with the status UNAVAILABLE.
pub mod Status
pub mod Relayed
pub mod Aborts
use browseterm_device_agent.Prelude.{
  ℕ, String, Bool, true, false, Option, none, some, List, ◌<>◌, ◌==◌, if◌then◌else◌,
}
use browseterm_device_agent.Text.{show}
use browseterm_device_agent.Json.{
  Json, null, int, pos, str, obj, field, end, Payload, plain, dumped, truthy, or_else,
}
use browseterm_device_agent.Json.Access.{get, index}
use browseterm_device_agent.Effects.{
  Action, Exc, cloud_error, CloudFailure, transport, unexpected_status, pure, raise, lift, handle,
  ◌>>=◌,
}
use browseterm_device_agent.State.Placement
use browseterm_device_agent.State.Placement.{PlacementCache}
use browseterm_device_agent.Clients.Cloud.{CloudClient}
use browseterm_device_agent.Clients.Cloud.Calls.{
  HibernateReply, request_hibernate, consume_terminal_ticket, get_tunnel_generation,
}
use browseterm_device_agent.Clients.Cloud.Resources.{
  get_active_container_ids, reconcile_device_resources, get_idle_containers, allocate_snapshot,
  report_snapshot_result, get_container, update_container_kubernetes_id,
}
use browseterm_device_agent.Control.Connection.{
  payload_or_empty, send_local_event, send_command_progress, send_terminal_tunnel_registration,
}
use browseterm_device_agent.Agent.{Agent, outside}

pub data Answer (A : Type 0) : Type 0 where
  answer : A → Answer A
  aborted : (message : String) → Answer A

-- `e.message`
abbrev pub message_of_failure : CloudFailure → String
message_of_failure (transport message) = message
message_of_failure (unexpected_status n) = "unexpected status " <> show n

-- `except CloudClientError as e: await _abort_on_cloud_error(context, e, ...)`
unfoldable pub abort_on_cloud_error : {S A : Type 0} → Exc → Action S (Answer A)
unfolding show
abort_on_cloud_error (cloud_error f) = pure (aborted (message_of_failure f))
abort_on_cloud_error e = raise e

pub record StatusReport : Type 0 where
  pub container_id : String
  pub placement_generation : ℕ
  pub observed_status : String
  pub kubernetes_id : String

-- `s or None`
abbrev pub text_or_null : String → Json
text_or_null s = if s == "" then null else str s

abbrev pub text_or_none : String → Option String
text_or_none s = if s == "" then none else some s

-- The generation that is passed on: the cache's own, or else the caller's.
unfoldable pub generation_of : StatusReport → Option PlacementCache → ℕ
unfolding Placement.get
generation_of request none = request.placement_generation
generation_of request (some cache) = elim (Placement.get request.container_id cache) [
  | none ↦ request.placement_generation
  | some (device_id, placement_generation) ↦ placement_generation
]

abbrev pub status_payload : StatusReport → ℕ → Json
status_payload request placement_generation = obj (
    field "container_id" (str request.container_id) (
      field "placement_generation" (int (pos placement_generation)) (
        field "observed_status" (str request.observed_status)
          (field "kubernetes_id" (text_or_null request.kubernetes_id) end))))

-- CommandReference
pub record CommandReference : Type 0 where
  pub created : Bool
  pub command_id : Json
  pub error : Payload

pub data TerminalTarget : Type 0 where
  invalid_target : TerminalTarget
  valid_target : (container_id ssh_host ssh_port ssh_username ssh_password : Json) → TerminalTarget

-- SnapshotAllocation
pub record SnapshotAllocation : Type 0 where
  pub id : Json
  pub version_sequence : Json
  pub version : Json
  pub image_repository : Json
  pub status : Json
  pub image_tag : Json

-- `target.get(k) or d`
abbrev target_field : {S : Type 0} → Json → String → Json → Action S Json
target_field target k d = do v ← lift (get target k null); pure (or_else v d)

unfoldable pub terminal_target : {S : Type 0} → Json → Action S TerminalTarget
terminal_target target =
    if truthy target
    then (do
      container_id ← lift (get target "container_id" (str ""))
      ssh_host ← target_field target "ssh_host" (str "")
      ssh_port ← target_field target "ssh_port" (int (pos 0))
      ssh_username ← target_field target "ssh_username" (str "")
      ssh_password ← target_field target "ssh_password" (str "")
      pure (valid_target container_id ssh_host ssh_port ssh_username ssh_password))
    else pure invalid_target

-- `generation if generation is not None else 0`
abbrev pub generation_or_zero : Option Json → Json
generation_or_zero none = int (pos 0)
generation_or_zero (some null) = int (pos 0)
generation_or_zero (some j) = j

-- The calls that are relayed over the stream.
module _ {W : Type 0} where
  -- ReportContainerStatus
  unfoldable pub report_container_status : StatusReport → Agent W → Agent W
  unfolding generation_of
  report_container_status request a =
      send_local_event "container_status_report"
        (dumped (status_payload request (generation_of request a.placement_cache))) a

  -- ReportSnapshotProgress
  unfoldable pub report_snapshot_progress : (command_id stage message : String) → Agent W → Agent W
  report_snapshot_progress command_id stage message a =
      if command_id == "" then a else send_command_progress command_id stage message a

  -- ReportTunnel
  unfoldable pub report_tunnel :
      (provider public_url : String) (generation : ℕ) (status : String) → Agent W → Agent W
  report_tunnel = send_terminal_tunnel_registration

module _ {W : Type 0} (c : CloudClient W) where
  -- RequestHibernate
  unfoldable pub request_hibernate_of :
      (container_id reason : String) → Action (Agent W) CommandReference
  request_hibernate_of container_id reason = do
    result ← outside (request_hibernate c container_id (reason == "pod_lost"))
    pure (record {
      created = result.created;
      command_id = or_else result.command_id (str "");
      error = payload_or_empty result.error;
    })

  -- ConsumeTerminalTicket
  unfoldable pub terminal_target_of : (ticket : String) → Action (Agent W) TerminalTarget
  unfolding terminal_target
  terminal_target_of ticket = do
    target ← outside (consume_terminal_ticket c ticket)
    elim target [ none ↦ pure invalid_target | some j ↦ terminal_target j ]

  -- GetTunnelGeneration
  unfoldable pub tunnel_generation : Action (Agent W) Json
  tunnel_generation = do
    generation ← outside (get_tunnel_generation c)
    pure (generation_or_zero generation)
