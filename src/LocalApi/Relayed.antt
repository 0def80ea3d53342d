-- ===== src/LocalApi/Relayed.antt =====
-- The seven calls of local_api/service.py that pass the Cloud's own state on, and abort where the Cloud
-- client raises.
use browseterm_device_agent.Prelude.{ℕ, String, Option, none, some, List}
use browseterm_device_agent.Json.{Json, Payload, dumped}
use browseterm_device_agent.Json.Access.{index}
use browseterm_device_agent.Effects.{Action, pure, lift, handle, ◌>>=◌}
use browseterm_device_agent.Clients.Cloud.{CloudClient}
use browseterm_device_agent.Clients.Cloud.Resources.{
  get_active_container_ids, reconcile_device_resources, get_idle_containers, allocate_snapshot,
  report_snapshot_result, get_container, update_container_kubernetes_id,
}
use browseterm_device_agent.Agent.{Agent, outside}
use browseterm_device_agent.LocalApi.{
  Answer, answer, abort_on_cloud_error, SnapshotAllocation, text_or_none,
}

-- What two calls make of the Cloud's answer.
module _ {S : Type 0} where
  abbrev pub allocation_of : Json → Action S (Answer SnapshotAllocation)
  allocation_of snapshot = do
    id ← lift (index snapshot "id")
    version_sequence ← lift (index snapshot "version_sequence")
    version ← lift (index snapshot "version")
    image_repository ← lift (index snapshot "image_repository")
    status ← lift (index snapshot "status")
    image_tag ← lift (index snapshot "image_tag")
    pure (
        answer (record {
          id = id;
          version_sequence = version_sequence;
          version = version;
          image_repository = image_repository;
          status = status;
          image_tag = image_tag;
        }))

  abbrev pub found_json : Option Json → Action S (Answer (Option Payload))
  found_json container = pure (answer (elim container [ none ↦ none | some j ↦ some (dumped j) ]))

module _ {W : Type 0} (c : CloudClient W) where
  -- A call of the Cloud whose CloudClientError aborts.
  abbrev pub relayed : {A : Type 0} → Action W A → Action (Agent W) (Answer A)
  relayed m = handle (outside m) (λ a. pure (answer a)) abort_on_cloud_error

  -- GetActiveContainerIds
  unfoldable pub active_container_ids : Action (Agent W) (Answer Json)
  unfolding abort_on_cloud_error
  active_container_ids = relayed (get_active_container_ids c)

  -- ReconcileDeviceResources
  unfoldable pub reconcile_resources :
      (running_container_ids running_pod_ips : Json) → Action (Agent W) (Answer (Unit {0}))
  unfolding abort_on_cloud_error
  reconcile_resources running_container_ids running_pod_ips =
      relayed (reconcile_device_resources c running_container_ids running_pod_ips)

  -- GetIdleContainers
  unfoldable pub idle_containers :
      (idle_threshold_seconds : ℕ) → Action (Agent W) (Answer (List Json))
  unfolding abort_on_cloud_error
  idle_containers idle_threshold_seconds = relayed (get_idle_containers c idle_threshold_seconds)

  -- AllocateSnapshot
  unfoldable pub snapshot_allocation :
      (container_id request_id : String) → Action (Agent W) (Answer SnapshotAllocation)
  unfolding abort_on_cloud_error
  snapshot_allocation container_id request_id =
      handle (outside (allocate_snapshot c container_id request_id)) allocation_of
        abort_on_cloud_error

  -- ReportSnapshotResult
  unfoldable pub snapshot_result :
      (container_id snapshot_id status image_reference registry_digest error_detail : String)
      → Action (Agent W) (Answer (Unit {0}))
  unfolding abort_on_cloud_error
  snapshot_result container_id snapshot_id status image_reference registry_digest error_detail =
      relayed (
        report_snapshot_result c container_id snapshot_id status (text_or_none image_reference)
          (text_or_none registry_digest) (text_or_none error_detail))

  -- GetContainer; `none` is `found=False`
  unfoldable pub container_json :
      (container_id : String) → Action (Agent W) (Answer (Option Payload))
  unfolding abort_on_cloud_error
  container_json container_id =
      handle (outside (get_container c container_id)) found_json abort_on_cloud_error

  -- UpdateContainerKubernetesId
  unfoldable pub container_kubernetes_id :
      (container_id kubernetes_id : String) → Action (Agent W) (Answer (Unit {0}))
  unfolding abort_on_cloud_error
  container_kubernetes_id container_id kubernetes_id =
      relayed (update_container_kubernetes_id c container_id kubernetes_id)
