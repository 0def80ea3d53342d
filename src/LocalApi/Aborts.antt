-- ===== src/LocalApi/Aborts.antt =====
-- local_api/service.py when the Cloud cannot be reached or refuses: no call makes up an answer.
use browseterm_device_agent.Prelude.{ℕ, String, ◌≡◌, refl}
use browseterm_device_agent.Json.{Json}
use browseterm_device_agent.Effects.{Action, Result, ok, handle, pure}
use browseterm_device_agent.Clients.Cloud.Resources.{
  get_active_container_ids, reconcile_device_resources, get_idle_containers, allocate_snapshot,
  report_snapshot_result, get_container, update_container_kubernetes_id,
}
use browseterm_device_agent.Clients.Cloud.{CloudClient, HttpRequest}
use browseterm_device_agent.Clients.Cloud.Refused.{
  IsRefusal, Raises, get_active_container_ids-Raises, reconcile_device_resources-Raises,
  get_idle_containers-Raises, allocate_snapshot-Raises, report_snapshot_result-Raises,
  get_container-Raises, update_container_kubernetes_id-Raises,
}
use browseterm_device_agent.LocalApi.{
  Answer, answer, text_or_none, aborted, message_of_failure, abort_on_cloud_error,
}
use browseterm_device_agent.LocalApi.Relayed.{
  allocation_of, found_json, active_container_ids, reconcile_resources, idle_containers,
  snapshot_allocation, snapshot_result, container_json, container_kubernetes_id,
}
use browseterm_device_agent.Agent.{Agent, outside}

abbrev pub IsAborted : {A : Type 0} → Result (Answer A) → Type 0
IsAborted r = (message : String) × (r ≡ ok (aborted message))

handle-IsAborted :
    {W A B : Type 0} (m : Action W A) (k : A → Action (Agent W) (Answer B)) (a : Agent W)
    → Raises (m a.world).0
    → IsAborted (handle (outside m) k abort_on_cloud_error a).0
unfolding abort_on_cloud_error
handle-IsAborted m k a (f, e) = (message_of_failure f, rw (handle, outside, e) refl)

module _ {W : Type 0} (c : CloudClient W)
    (refused : (r : HttpRequest) (w : W) → IsRefusal (c.api.send r w).0) (a : Agent W) where
  -- If every request to the Cloud fails on the way, or is answered with a status other than 200,
  -- 201 and 404, then each of the seven calls that pass the Cloud's own state on is aborted: none
  -- gives an empty list, a missing container or a success, and none raises.
  pub calls-IsAborted :
      (ids ips : Json) (seconds : ℕ) (id other status image digest detail : String)
      → IsAborted (active_container_ids c a).0
        × IsAborted (reconcile_resources c ids ips a).0
        × IsAborted (idle_containers c seconds a).0
        × IsAborted (snapshot_allocation c id other a).0
        × IsAborted (snapshot_result c id other status image digest detail a).0
        × IsAborted (container_json c id a).0
        × IsAborted (container_kubernetes_id c id other a).0
  unfolding active_container_ids reconcile_resources idle_containers snapshot_allocation
      snapshot_result container_json container_kubernetes_id
  calls-IsAborted ids ips seconds id other status image digest detail = (
    handle-IsAborted (get_active_container_ids c) (λ x. pure (answer x)) a
        (get_active_container_ids-Raises c refused a.world),
    handle-IsAborted (reconcile_device_resources c ids ips) (λ x. pure (answer x)) a
        (reconcile_device_resources-Raises c refused ids ips a.world),
    handle-IsAborted (get_idle_containers c seconds) (λ x. pure (answer x)) a
        (get_idle_containers-Raises c refused seconds a.world),
    handle-IsAborted (allocate_snapshot c id other) allocation_of a
        (allocate_snapshot-Raises c refused id other a.world),
    handle-IsAborted
        (report_snapshot_result c id other status (text_or_none image) (text_or_none digest)
          (text_or_none detail))
        (λ x. pure (answer x)) a
        (report_snapshot_result-Raises c refused id other status _ _ _ a.world),
    handle-IsAborted (get_container c id) found_json a (get_container-Raises c refused id a.world),
    handle-IsAborted (update_container_kubernetes_id c id other) (λ x. pure (answer x)) a
        (update_container_kubernetes_id-Raises c refused id other a.world),
  )
