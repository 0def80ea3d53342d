-- ===== src/Clients/Cloud/Calls.antt =====
-- The first five calls of clients/cloud_client.py, which answer a failure of the transport by a
-- default: hibernate requests, terminal tickets, save status, tunnel generation, command results.
use browseterm_device_agent.Prelude.{
  ℕ, String, Bool, true, false, Option, none, some, List, [], ◌∷◌, ◌<>◌, eqb, if◌then◌else◌,
}
use browseterm_device_agent.Json.{
  Json, null, bool, int, str, pos, obj, field, end, Payload, plain, shown,
}
use browseterm_device_agent.Json.Access.{get}
use browseterm_device_agent.State.Journal.{
  CommandStatus, accepted, running, succeeded, failed, Outcome,
}
use browseterm_device_agent.Effects.{
  Action, Result, ok, Exc, http_error, pure, raise, lift, handle, ◌>>=◌,
}
use browseterm_device_agent.Clients.Retry.{Policy, call_with_retry}
use browseterm_device_agent.Clients.Cloud.{
  CloudClient, HttpRequest, HttpResponse, Value, value, text, is_retryable_transport_error,
  is_retryable_connect_error, json, default_on_http_error, device_path, container_path, retried,
  get_request, post_request,
}

-- {"created": ..., "command_id": ..., "error": ...}
pub record HibernateReply : Type 0 where
  pub created : Bool
  pub command_id : Json
  pub error : Option Payload

abbrev rejected : Payload → HibernateReply
rejected error = record { created = false; command_id = null; error = some error }

-- `str(error)`
abbrev show : Json → Payload
show (str s) = plain s
show null = plain "None"
show j = shown j

-- `try: error = response.json().get("error")`, `except ValueError: error = response.text`
abbrev error_of : HttpResponse → Result Json
error_of r = elim r.body [ none ↦ ok (str r.text) | some j ↦ get j "error" null ]

unfoldable pub answer_hibernate : {W : Type 0} → HttpResponse → Action W HibernateReply
answer_hibernate response =
    if eqb response.status_code 202
    then (do
      body ← json response
      command ← lift (get body "command" (obj end))
      id ← lift (get command "id" null)
      pure (record { created = true; command_id = id; error = none }))
    else (do error ← lift (error_of response); pure (rejected (show error)))

unfoldable pub reject_on_http_error : {W : Type 0} → Exc → Action W HibernateReply
reject_on_http_error (http_error _ message) = pure (rejected (plain message))
reject_on_http_error e = raise e

-- {"status": None, "image_reference": None, "error_detail": None}
abbrev pub no_result : Json
no_result = obj (field "status" null (field "image_reference" null (field "error_detail" null end)))

-- The name of a status on the wire and in the journal.
abbrev pub status_name : CommandStatus → String
status_name accepted = "accepted"
status_name running = "running"
status_name succeeded = "succeeded"
status_name failed = "failed"

abbrev pub or_null : Option Json → Value
or_null none = value null
or_null (some j) = value j

abbrev text_or_null : Option Payload → Value
text_or_null none = value null
text_or_null (some p) = text p

abbrev code_or_null : Option String → Value
code_or_null none = value null
code_or_null (some s) = value (str s)

abbrev pub result_body : Outcome → ℕ → List (String × Value)
result_body o placement_generation =
    ("status", value (str (status_name o.status)))
    ∷ ("result", or_null o.result)
    ∷ ("placement_generation", value (int (pos placement_generation)))
    ∷ ("error_code", code_or_null o.error_code)
    ∷ ("error_message", text_or_null o.error_message)
    ∷ []

module _ {W : Type 0} (c : CloudClient W) where
  unfoldable pub request_hibernate :
      (container_id : String) (skip_save : Bool) → Action W HibernateReply
  unfolding call_with_retry answer_hibernate reject_on_http_error is_retryable_transport_error
  request_hibernate container_id skip_save =
      handle
        (retried c is_retryable_transport_error (
          post_request (container_path c container_id "/hibernate-request")
            (if skip_save then ("skip_save", value (bool true)) ∷ [] else [])))
        answer_hibernate reject_on_http_error

  unfoldable pub consume_terminal_ticket : (ticket : String) → Action W (Option Json)
  unfolding call_with_retry is_retryable_connect_error
  consume_terminal_ticket ticket =
      handle
        (retried c is_retryable_connect_error
          (post_request "/internal/terminal-tickets/consume" (("ticket", value (str ticket)) ∷ [])))
        (λ response.
          if eqb response.status_code 200
          then (do body ← json response; pure (some body))
          else pure none)
        (default_on_http_error none)

  unfoldable pub get_save_status : (container_id request_id : String) → Action W Json
  get_save_status container_id request_id =
      handle
        (c.api.send (record (get_request (container_path c container_id "/save-status")) {
          params = ("request_id", value (str request_id)) ∷ [];
        }))
        (λ response. if eqb response.status_code 200 then json response else pure no_result)
        (default_on_http_error no_result)

  unfoldable pub get_tunnel_generation : Action W (Option Json)
  get_tunnel_generation =
      handle (c.api.send (get_request (device_path c "/tunnel/generation")))
        (λ response.
          if eqb response.status_code 200
          then (do
            body ← json response
            generation ← lift (get body "generation" null)
            pure (some generation))
          else pure none)
        (default_on_http_error none)

  -- `call_with_retry` with the arguments of `report_command_result`
  abbrev pub report_policy : Policy W
  report_policy = record {
    is_retryable = is_retryable_transport_error;
    max_attempts = 5;
    base_delay = 500;
    max_delay = 5000;
    pause = c.api.pause;
  }

  abbrev pub report_request :
      (command_id : String) → Outcome → (placement_generation : ℕ) → HttpRequest
  report_request command_id o placement_generation =
      post_request (device_path c ("/commands/" <> (command_id <> "/result")))
        (result_body o placement_generation)

  unfoldable pub report_command_result :
      (command_id : String) → Outcome → (placement_generation : ℕ) → Action W Bool
  unfolding call_with_retry is_retryable_transport_error
  report_command_result command_id o placement_generation =
      handle
        (call_with_retry report_policy
          (c.api.send (report_request command_id o placement_generation)))
        (λ response. pure (eqb response.status_code 200)) (default_on_http_error false)
