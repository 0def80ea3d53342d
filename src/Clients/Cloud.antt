-- ===== src/Clients/Cloud.antt =====
-- clients/cloud_client.py. `httpx` and the Cloud behind it are `CloudApi`: a request goes out, and
-- a response comes back or an exception is raised. The device's token and the base address are the
-- same for every request and left out.
pub mod Calls
pub mod Resources
pub mod Once
pub mod Refused
use browseterm_device_agent.Prelude.{
  ℕ, String, Bool, true, false, not, Option, none, some, List, [], ◌∷◌, ◌<>◌,
}
use browseterm_device_agent.Json.{Json, Payload, Fields}
use browseterm_device_agent.Effects.{
  Action, Result, ok, err, Exc, HttpFault, connect_error, connect_timeout, http_status_error,
  http_error, cloud_error, transport, other, pure, raise,
}
use browseterm_device_agent.Clients.Maker.{default_policy}
use browseterm_device_agent.Clients.Retry.{Policy, call_with_retry}

pub data Method : Type 0 where
  get post : Method

-- What stands under a key of a JSON body: a value, or a text.
pub data Value : Type 0 where
  value : Json → Value
  text : Payload → Value

pub record HttpRequest : Type 0 where
  pub method : Method
  pub path : String
  pub params : List (String × Value)
  pub body : List (String × Value)

-- `body` is what `response.json()` gives, if the text is JSON.
pub record HttpResponse : Type 0 where
  pub status_code : ℕ
  pub body : Option Json
  pub text : String

-- What is not in the repository: `self._client`, and `asyncio.sleep` with the random factor.
pub record CloudApi (W : Type 0) : Type 0 where
  pub send : HttpRequest → Action W HttpResponse
  pub pause : ℕ → W → W

pub record CloudClient (W : Type 0) : Type 0 where
  pub device_id : String
  pub api : CloudApi W

-- `_is_retryable_transport_error`
unfoldable pub is_retryable_transport_error : Exc → Bool
is_retryable_transport_error (http_error http_status_error _) = false
is_retryable_transport_error (http_error _ _) = true
is_retryable_transport_error _ = false

-- `_is_retryable_connect_error`
unfoldable pub is_retryable_connect_error : Exc → Bool
is_retryable_connect_error (http_error connect_error _) = true
is_retryable_connect_error (http_error connect_timeout _) = true
is_retryable_connect_error _ = false

-- `response.json()`, where a text that is no JSON is a JSONDecodeError that nothing catches
abbrev pub json : {S : Type 0} → HttpResponse → Action S Json
json r s = (elim r.body [ none ↦ err (other "Expecting value") | some j ↦ ok j ], s)

-- `except httpx.HTTPError: return a`
abbrev pub default_on_http_error : {S A : Type 0} → A → Exc → Action S A
default_on_http_error a (http_error _ _) = pure a
default_on_http_error a e = raise e

-- `except httpx.HTTPError as e: raise CloudClientError(str(e)) from e`
abbrev pub cloud_on_http_error : {S A : Type 0} → Exc → Action S A
cloud_on_http_error (http_error _ message) = raise (cloud_error (transport message))
cloud_on_http_error e = raise e

module _ {W : Type 0} (c : CloudClient W) where
  -- f"/devices/{self.device_id}" followed by the rest of the path
  abbrev pub device_path : String → String
  device_path rest = "/devices/" <> (c.device_id <> rest)

  abbrev pub container_path : String → String → String
  container_path container_id rest = device_path ("/containers/" <> (container_id <> rest))

  -- A request, retried by the default policy.
  abbrev pub retried : (Exc → Bool) → HttpRequest → Action W HttpResponse
  unfolding call_with_retry
  retried f request = call_with_retry (default_policy c.api.pause f) (c.api.send request)

abbrev pub get_request : String → HttpRequest
get_request path = record { method = get; path = path; params = []; body = [] }

abbrev pub post_request : String → List (String × Value) → HttpRequest
post_request path body = record { method = post; path = path; params = []; body = body }
