-- ===== src/Clients/Cloud/Once.antt =====
-- `consume_terminal_ticket` of clients/cloud_client.py submits a single-use ticket once at most.
use browseterm_device_agent.Prelude.{ℕ, ◌+◌, ◌≤◌, String, ◌≡◌, refl, true, arith, [], ◌∷◌}
use browseterm_device_agent.Json.{str}
use browseterm_device_agent.Effects.{
  Result, ok, err, Exc, connect_error, connect_timeout, http_error,
}
use browseterm_device_agent.Clients.Retry.{call_with_retry}
use browseterm_device_agent.Clients.Retry.Effect.{call_with_retry-once}
use browseterm_device_agent.Clients.Maker.{default_policy}
use browseterm_device_agent.Clients.Cloud.{
  CloudClient, HttpRequest, HttpResponse, value, is_retryable_connect_error, post_request,
}
use browseterm_device_agent.Clients.Cloud.Calls.{consume_terminal_ticket}

-- The requests, with the number of them that the Cloud has processed: one that ended in a connect
-- error has not reached it, any other is processed once at most, and a pause sends nothing.
pub record Submits {W : Type 0} (c : CloudClient W) (processed : W → ℕ) : Type 0 where
  pub unconnected :
      (r : HttpRequest) (w : W) (message : String)
      → (c.api.send r w).0 ≡ err (http_error connect_error message)
      → processed (c.api.send r w).1 ≡ processed w
  pub timed_out :
      (r : HttpRequest) (w : W) (message : String)
      → (c.api.send r w).0 ≡ err (http_error connect_timeout message)
      → processed (c.api.send r w).1 ≡ processed w
  pub once : (r : HttpRequest) (w : W) → processed (c.api.send r w).1 ≤ processed w + 1
  pub quiet : (ms : ℕ) (w : W) → processed (c.api.pause ms w) ≡ processed w

module _ {W : Type 0} (c : CloudClient W) (processed : W → ℕ) (submits : Submits c processed)
    (ticket : String) where
  abbrev ticket_request : HttpRequest
  ticket_request =
      post_request "/internal/terminal-tickets/consume" (("ticket", value (str ticket)) ∷ [])

  unreached :
      (w : W) (x : Exc)
      → (c.api.send ticket_request w).0 ≡ err x
      → is_retryable_connect_error x ≡ true
      → processed (c.api.send ticket_request w).1 ≡ processed w
  unfolding is_retryable_connect_error
  unreached w (http_error connect_error message) e r =
      submits.unconnected ticket_request w message e
  unreached w (http_error connect_timeout message) e r =
      submits.timed_out ticket_request w message e
  unreached w _ e r = cc

  abbrev sent : W → Result HttpResponse × W
  sent =
      call_with_retry (default_policy c.api.pause is_retryable_connect_error)
        (c.api.send ticket_request)

  consume-world :
      (r : Result HttpResponse) (w : W)
      → (sent w).0 ≡ r
      → (consume_terminal_ticket c ticket w).1 ≡ (sent w).1
  unfolding consume_terminal_ticket
  consume-world (ok response) w h = ground arith
  consume-world (err (http_error fault message)) w h = ground arith
  consume-world (err _) w h = ground arith

  -- If a request that ends in a connect error was not processed, any other is processed once at
  -- most, and a pause sends nothing, then a terminal ticket, with the retries, is submitted once
  -- at most.
  pub consume_terminal_ticket-once :
      (w : W) → processed (consume_terminal_ticket c ticket w).1 ≤ processed w + 1
  consume_terminal_ticket-once w = rw (consume-world _ w refl) (
      call_with_retry-once (default_policy c.api.pause is_retryable_connect_error)
        (c.api.send ticket_request) processed unreached (submits.once ticket_request) submits.quiet
        w)
