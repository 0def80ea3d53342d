-- ===== src/Control/Connection.antt =====
-- control/grpc_client.py: what `ConnectionManager` builds, sends, and does with each message of the
-- Cloud. The gRPC stream itself is not in the repository: `Stream` has the orders in which it may
-- pull messages and deliver them, and `Loop` the connections one after the other.
pub mod Messages
pub mod Inbound
pub mod Session
pub mod Stream
pub mod Loop
pub mod Dial
use browseterm_device_agent.Prelude.{
  ℕ, String, Bool, true, false, Option, none, some, List, [], ◌∷◌, ◌==◌, if◌then◌else◌,
}
use browseterm_device_agent.Json.{Json, Payload, plain, dumped}
use browseterm_device_agent.Effects.{Action, Result, ok, err, other, pure, and_then, ◌>>=◌}
use browseterm_device_agent.State.Journal.{
  Journal, JournalEntry, CommandStatus, accepted, running, succeeded, failed, Outcome,
  has_terminal_result, record_accepted, mark_reported, unreported_terminal_entries,
}
use browseterm_device_agent.State.Placement.{PlacementCache}
use browseterm_device_agent.Commands.Env.{ExecuteCommand, Env}
use browseterm_device_agent.Commands.Name.{operation_name}
use browseterm_device_agent.Agent.{
  Agent, Message, Hello, CommandResult, WireStatus, wire_succeeded, wire_failed, hello, heartbeat,
  pong, command_accepted, command_progress, command_result, local_event,
  terminal_tunnel_registration, on_journal, send,
}

-- The fields of `ConnectionManager` that `build_hello` reads, and the two constants of config.py.
pub record Identity : Type 0 where
  pub device_id : String
  pub platform : ℕ
  pub architecture : ℕ
  pub runtime_version : String
  pub startup_id : String

unfoldable pub build_hello : (agent_version protocol_version : String) → Identity → Message
build_hello agent_version protocol_version c = hello (record {
  device_id = c.device_id;
  agent_version = agent_version;
  protocol_version = protocol_version;
  platform = c.platform;
  architecture = c.architecture;
  runtime_version = c.runtime_version;
  startup_id = c.startup_id;
})

-- `_STATUS_TO_WIRE[status]`
unfoldable pub status_to_wire : CommandStatus → Result WireStatus
status_to_wire succeeded = ok wire_succeeded
status_to_wire failed = ok wire_failed
status_to_wire accepted = err (other "'accepted'")
status_to_wire running = err (other "'running'")

-- `a or ""`
abbrev pub text_or_empty : Option String → String
text_or_empty none = ""
text_or_empty (some s) = s

abbrev pub payload_or_empty : Option Payload → Payload
payload_or_empty none = plain ""
payload_or_empty (some p) = p

-- The JSON text of the result, or the empty text.
abbrev pub json_or_empty : Option Json → Payload
json_or_empty none = plain ""
json_or_empty (some j) = dumped j

abbrev pub result_message :
    (command_id : String) → WireStatus → Outcome → (placement_generation : ℕ) → Message
result_message command_id status o placement_generation = command_result (record {
  command_id = command_id;
  status = status;
  result_json = json_or_empty o.result;
  error_code = text_or_empty o.error_code;
  error_message = payload_or_empty o.error_message;
  placement_generation = placement_generation;
})

-- What a row says of its command's outcome.
abbrev pub outcome_of_entry : JournalEntry → Outcome
outcome_of_entry e = record {
  status = e.status;
  result = e.result_json;
  error_code = e.error_code;
  error_message = e.error_message;
}

-- `_messages_for_entries`
unfoldable pub messages_for_entries : List JournalEntry → Result (List Message)
unfolding status_to_wire
messages_for_entries [] = ok []
messages_for_entries (e ∷ es) =
    let rest = messages_for_entries es in
    and_then (status_to_wire e.status) λ status. and_then rest λ messages.
      ok (result_message e.command_id status (outcome_of_entry e) e.placement_generation ∷ messages)

unfoldable pub build_unreported_results : Journal → Result (List Message)
unfolding messages_for_entries unreported_terminal_entries
build_unreported_results t = messages_for_entries (unreported_terminal_entries t)

abbrev pub ids : List JournalEntry → List String
ids [] = []
ids (e ∷ es) = e.command_id ∷ ids es

-- The messages of the Cloud. The last stands for those that the agent does not handle yet.
pub data CloudToDevice : Type 0 where
  hello_accepted : (connection_generation : ℕ) (reconciliation_required : Bool) → CloudToDevice
  execute_command : ExecuteCommand → CloudToDevice
  ping : (sent_at_unix_ms : ℕ) → CloudToDevice
  server_draining : (drain_by_unix_ms : ℕ) → CloudToDevice
  not_handled : CloudToDevice

-- `for command_id in self._pending_resend_ids: self.journal.mark_reported(command_id)`
unfoldable pub mark_all : (now : ℕ) → List String → Journal → Journal
mark_all now [] t = t
mark_all now (id ∷ ids) t = mark_all now ids (mark_reported now id t)

module _ {W : Type 0} where
  -- The state of a new `ConnectionManager`: no queue yet, and nothing to resend.
  abbrev pub constructed : Journal → Option PlacementCache → W → Agent W
  constructed journal placement_cache w = record {
    journal = journal;
    placement_cache = placement_cache;
    outbound = none;
    pending_resend_ids = [];
    world = w;
  }

  -- The outbound generator, first stage, in `_connect_once`: a queue of its own, and the Hello.
  unfoldable pub open_stream : Agent W → Agent W
  open_stream a = record a { outbound = some [] }

  -- The second stage: the journal's unreported results, and their ids kept as pending.
  unfoldable pub resend : Agent W → Result (List Message) × Agent W
  unfolding messages_for_entries unreported_terminal_entries
  resend a =
      let unreported = unreported_terminal_entries a.journal in
      (messages_for_entries unreported, record a { pending_resend_ids = ids unreported })

  unfoldable pub send_command_result :
      (command_id : String) (placement_generation : ℕ) → Outcome → Action (Agent W) (Unit {0})
  unfolding status_to_wire send
  send_command_result command_id placement_generation o a = elim (status_to_wire o.status) [
    | ok status ↦ (ok tt, send (result_message command_id status o placement_generation) a)
    | err e ↦ (err e, a)
  ]

  unfoldable pub send_command_progress : (command_id stage message : String) → Agent W → Agent W
  unfolding send
  send_command_progress command_id stage message = send (command_progress command_id stage message)

  unfoldable pub send_local_event :
      (event_type : String) (payload_json : Payload) → Agent W → Agent W
  unfolding send
  send_local_event event_type payload_json = send (local_event event_type payload_json)

  unfoldable pub send_terminal_tunnel_registration :
      (provider public_url : String) (generation : ℕ) (status : String) → Agent W → Agent W
  unfolding send
  send_terminal_tunnel_registration provider public_url generation status =
      send (terminal_tunnel_registration provider public_url generation status)

module _ {W : Type 0} (env : Env W) where
  -- One round of `_heartbeat_loop`.
  unfoldable pub send_heartbeat : Agent W → Agent W
  unfolding send
  send_heartbeat a = send (heartbeat (env.unix_ms a.world)) a

  module _ (on_execute_command : String → ExecuteCommand → Action (Agent W) (Unit {0})) where
    -- The branch of an ExecuteCommand that has no terminal result yet.
    unfoldable pub accept_command : ExecuteCommand → Action (Agent W) (Unit {0})
    unfolding send
    accept_command command a =
        let recorded =
          on_journal
            (record_accepted (env.now a.world) command.command_id (operation_name command.operation)
              command.placement_generation)
            a in
        on_execute_command command.command_id command
          (send (command_accepted command.command_id (env.unix_ms a.world)) recorded)

    -- `_handle_inbound`
    unfoldable pub handle_inbound : CloudToDevice → Action (Agent W) (Unit {0})
    unfolding mark_all accept_command send
    handle_inbound (hello_accepted connection_generation reconciliation_required) a = (
      ok tt,
      record a {
        journal = mark_all (env.now a.world) a.pending_resend_ids a.journal;
        pending_resend_ids = [];
      },
    )
    handle_inbound (execute_command command) a =
        if has_terminal_result command.command_id a.journal
        then (ok tt, a)
        else accept_command command a
    handle_inbound (ping sent_at_unix_ms) a = (ok tt, send (pong sent_at_unix_ms) a)
    handle_inbound (server_draining drain_by_unix_ms) a = (ok tt, a)
    handle_inbound not_handled a = (ok tt, a)
