-- ===== src/Clients/Cloud/Resources.antt =====
-- The last seven calls of clients/cloud_client.py, which raise CloudClientError on any failure.
use browseterm_device_agent.Prelude.{
  ℕ, String, ◌||◌, Option, none, some, List, [], ◌∷◌, ◌++◌, ◌<>◌, eqb, if◌then◌else◌,
}
use browseterm_device_agent.Json.{Json, str, arr, nil, int, pos}
use browseterm_device_agent.Json.Access.{get, index, iterate}
use browseterm_device_agent.Effects.{
  Action, Result, ok, cloud_error, unexpected_status, pure, raise, lift, handle, and_then, ◌>>=◌,
  ◌>>◌,
}
use browseterm_device_agent.Clients.Retry.{call_with_retry}
use browseterm_device_agent.Clients.Cloud.{
  CloudClient, HttpRequest, HttpResponse, Value, value, is_retryable_transport_error, json,
  cloud_on_http_error, device_path, container_path, retried, get_request, post_request,
}

-- `if response.status_code != 200: raise CloudClientError(f"unexpected status ...")`
unfoldable pub expect_ok : {W : Type 0} → HttpResponse → Action W (Unit {0})
expect_ok response =
    if eqb response.status_code 200
    then pure tt
    else raise (cloud_error (unexpected_status response.status_code))

-- `[c["id"] for c in cs]`
unfoldable pub ids_of : List Json → Result (List Json)
ids_of [] = ok []
ids_of (j ∷ js) =
    let rest = ids_of js in and_then (index j "id") λ id. and_then rest λ ids. ok (id ∷ ids)

-- A key of the body that is there only with a value.
abbrev optional : String → Option String → List (String × Value)
optional key none = []
optional key (some s) = (key, value (str s)) ∷ []

-- What the calls make of a response.
module _ {W : Type 0} where
  abbrev pub container_ids_of : HttpResponse → Action W Json
  container_ids_of response = do
    expect_ok response
    body ← json response
    lift (get body "container_ids" (arr nil))

  abbrev pub idle_ids_of : HttpResponse → Action W (List Json)
  idle_ids_of response = do
    expect_ok response
    body ← json response
    containers ← lift (get body "containers" (arr nil))
    rows ← lift (iterate containers)
    lift (ids_of rows)

  abbrev pub snapshot_of : HttpResponse → Action W Json
  snapshot_of response =
      if eqb response.status_code 200 || eqb response.status_code 201
      then (do body ← json response; lift (index body "snapshot"))
      else raise (cloud_error (unexpected_status response.status_code))

  abbrev pub container_of : HttpResponse → Action W (Option Json)
  container_of response = if eqb response.status_code 404 then pure none else (do
    expect_ok response
    body ← json response
    container ← lift (index body "container")
    pure (some container))

module _ {W : Type 0} (c : CloudClient W) where
  -- The request, and what is done with its response.
  abbrev request : {A : Type 0} → HttpRequest → (HttpResponse → Action W A) → Action W A
  unfolding call_with_retry is_retryable_transport_error
  request r answer = handle (retried c is_retryable_transport_error r) answer cloud_on_http_error

  unfoldable pub get_active_container_ids : Action W Json
  unfolding expect_ok call_with_retry is_retryable_transport_error
  get_active_container_ids =
      request (get_request (device_path c "/active-containers")) container_ids_of

  unfoldable pub reconcile_device_resources :
      (running_container_ids running_pod_ips : Json) → Action W (Unit {0})
  unfolding expect_ok call_with_retry is_retryable_transport_error
  reconcile_device_resources running_container_ids running_pod_ips =
      request
        (post_request (device_path c "/resources/reconcile") (
          ("running_container_ids", value running_container_ids)
          ∷ ("running_pod_ips", value running_pod_ips)
          ∷ []))
        expect_ok

  unfoldable pub get_idle_containers : (idle_threshold_seconds : ℕ) → Action W (List Json)
  unfolding expect_ok ids_of call_with_retry is_retryable_transport_error
  get_idle_containers idle_threshold_seconds =
      request
        (record (get_request (device_path c "/containers/idle")) {
          params = ("idle_threshold_seconds", value (int (pos idle_threshold_seconds))) ∷ [];
        })
        idle_ids_of

  unfoldable pub allocate_snapshot : (container_id request_id : String) → Action W Json
  unfolding call_with_retry is_retryable_transport_error
  allocate_snapshot container_id request_id =
      request
        (post_request (container_path c container_id "/snapshots/allocate")
          (("request_id", value (str request_id)) ∷ []))
        snapshot_of

  unfoldable pub report_snapshot_result :
      (container_id snapshot_id status : String)
      (image_reference registry_digest error_detail : Option String)
      → Action W (Unit {0})
  unfolding expect_ok call_with_retry is_retryable_transport_error
  report_snapshot_result container_id snapshot_id status image_reference registry_digest
        error_detail =
      handle
        (call_with_retry
          (record {
            is_retryable = is_retryable_transport_error;
            max_attempts = 5;
            base_delay = 500;
            max_delay = 30000;
            pause = c.api.pause;
          })
          (c.api.send (
            post_request
              (container_path c container_id ("/snapshots/" <> (snapshot_id <> "/report")))
              (("status", value (str status))
                ∷ (optional "image_reference" image_reference
                    ++ (optional "registry_digest" registry_digest
                        ++ optional "error_detail" error_detail))))))
        expect_ok cloud_on_http_error

  unfoldable pub get_container : (container_id : String) → Action W (Option Json)
  unfolding expect_ok call_with_retry is_retryable_transport_error
  get_container container_id = request (get_request (container_path c container_id "")) container_of

  unfoldable pub update_container_kubernetes_id :
      (container_id kubernetes_id : String) → Action W (Unit {0})
  unfolding expect_ok call_with_retry is_retryable_transport_error
  update_container_kubernetes_id container_id kubernetes_id =
      request
        (post_request (container_path c container_id "/kubernetes-id")
          (("kubernetes_id", value (str kubernetes_id)) ∷ []))
        expect_ok
