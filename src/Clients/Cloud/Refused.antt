-- ===== src/Clients/Cloud/Refused.antt =====
-- The last seven calls of clients/cloud_client.py when the Cloud cannot be reached or refuses.
use browseterm_device_agent.Prelude.{ℕ, ◌<◌, String, ◌≡◌, refl, false, Option, arith, eqb}
use browseterm_device_agent.Json.{Json}
use browseterm_device_agent.Effects.{
  Action, Result, ok, err, http_error, cloud_error, CloudFailure, transport, unexpected_status,
  handle,
}
use browseterm_device_agent.Clients.Retry.{Policy, call_with_retry}
use browseterm_device_agent.Clients.Retry.Outcome.{call_with_retry-all}
use browseterm_device_agent.Clients.Cloud.{
  CloudClient, HttpRequest, HttpResponse, cloud_on_http_error, retried,
  is_retryable_transport_error,
}
use browseterm_device_agent.Clients.Maker.{default_policy}
use browseterm_device_agent.Clients.Cloud.Resources.{
  expect_ok, container_ids_of, idle_ids_of, snapshot_of, container_of, get_active_container_ids,
  reconcile_device_resources, get_idle_containers, allocate_snapshot, report_snapshot_result,
  get_container, update_container_kubernetes_id,
}

-- No answer, or one that is no success and does not say that something is missing.
abbrev pub IsRefusal : Result HttpResponse → Type 0
IsRefusal (ok r) =
    (eqb r.status_code 200 ≡ false)
    × ((eqb r.status_code 201 ≡ false) × (eqb r.status_code 404 ≡ false))
IsRefusal (err (http_error fault message)) = Unit
IsRefusal (err e) = ⊥

-- The call ends with a CloudClientError.
abbrev pub Raises : {A : Type 0} → Result A → Type 0
Raises r = (f : CloudFailure) × (r ≡ err (cloud_error f))

outcome-Raises :
    {S A : Type 0} (answer : HttpResponse → Action S A) (o : Result HttpResponse × S)
    → IsRefusal o.0
    → ((r : HttpResponse) (t : S) → IsRefusal (ok r) → Raises (answer r t).0)
    → Raises
        (elim o.0 as (λ x. Result A × S) [
          | ok r ↦ answer r o.1
          | err e ↦ cloud_on_http_error e o.1
        ]).0
outcome-Raises answer (ok r, t) h k = k r t h
outcome-Raises answer (err (http_error fault message), t) h k = (transport message, refl)
outcome-Raises answer (err _, t) h k = absurd h

module _ {W : Type 0} (c : CloudClient W)
    (refused : (r : HttpRequest) (w : W) → IsRefusal (c.api.send r w).0) where
  retried-IsRefusal :
      (p : Policy W) (r : HttpRequest) (w : W)
      → 0 < p.max_attempts
      → IsRefusal (call_with_retry p (c.api.send r) w).0
  retried-IsRefusal p r w pos = call_with_retry-all p (c.api.send r) IsRefusal (refused r) w pos

  expect_ok-Raises : (r : HttpResponse) (w : W) → IsRefusal (ok r) → Raises (expect_ok r w).0
  unfolding expect_ok
  expect_ok-Raises r w h = rw h.0 (unexpected_status r.status_code, refl)

  request-Raises :
      {A : Type 0} (r : HttpRequest) (answer : HttpResponse → Action W A) (w : W)
      → ((r : HttpResponse) (t : W) → IsRefusal (ok r) → Raises (answer r t).0)
      → Raises (handle (retried c is_retryable_transport_error r) answer cloud_on_http_error w).0
  unfolding retried call_with_retry
  request-Raises r answer w k =
      outcome-Raises answer (retried c is_retryable_transport_error r w)
        (retried-IsRefusal (default_policy c.api.pause is_retryable_transport_error) r w
          (omega arith))
        k

  pub get_active_container_ids-Raises : (w : W) → Raises (get_active_container_ids c w).0
  unfolding get_active_container_ids expect_ok
  get_active_container_ids-Raises w =
      request-Raises _ container_ids_of w (λ r t h. rw h.0 (unexpected_status r.status_code, refl))

  pub reconcile_device_resources-Raises :
      (x y : Json) (w : W) → Raises (reconcile_device_resources c x y w).0
  unfolding reconcile_device_resources expect_ok
  reconcile_device_resources-Raises x y w = request-Raises _ expect_ok w expect_ok-Raises

  pub get_idle_containers-Raises : (n : ℕ) (w : W) → Raises (get_idle_containers c n w).0
  unfolding get_idle_containers expect_ok
  get_idle_containers-Raises n w =
      request-Raises _ idle_ids_of w (λ r t h. rw h.0 (unexpected_status r.status_code, refl))

  pub allocate_snapshot-Raises :
      (id request_id : String) (w : W) → Raises (allocate_snapshot c id request_id w).0
  unfolding allocate_snapshot
  allocate_snapshot-Raises id request_id w =
      request-Raises _ snapshot_of w
        (λ r t h. rw (h.0, h.1.0) (unexpected_status r.status_code, refl))

  pub report_snapshot_result-Raises :
      (id snapshot status : String) (image digest detail : Option String) (w : W)
      → Raises (report_snapshot_result c id snapshot status image digest detail w).0
  unfolding report_snapshot_result expect_ok
  report_snapshot_result-Raises id snapshot status image digest detail w =
      outcome-Raises expect_ok _
        (retried-IsRefusal
          (record {
            is_retryable = is_retryable_transport_error;
            max_attempts = 5;
            base_delay = 500;
            max_delay = 30000;
            pause = c.api.pause;
          })
          _ w (omega arith))
        expect_ok-Raises

  pub get_container-Raises : (id : String) (w : W) → Raises (get_container c id w).0
  unfolding get_container expect_ok
  get_container-Raises id w =
      request-Raises _ container_of w
        (λ r t h. rw (h.1.1, h.0) (unexpected_status r.status_code, refl))

  pub update_container_kubernetes_id-Raises :
      (id kubernetes_id : String) (w : W)
      → Raises (update_container_kubernetes_id c id kubernetes_id w).0
  unfolding update_container_kubernetes_id expect_ok
  update_container_kubernetes_id-Raises id kubernetes_id w =
      request-Raises _ expect_ok w expect_ok-Raises
