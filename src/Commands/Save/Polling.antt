-- ===== src/Commands/Save/Polling.antt =====
-- The polling loop of commands/save_execution.py ends.
use browseterm_device_agent.Prelude.{
  [], ◌∷◌, ℕ, zero, suc, ◌+◌, ◌≤◌, ◌<◌, String, ◌≡◌, ◌≢◌, true, false, inl, inr, arith, leb,
  Bool-cases,
}
use browseterm_device_agent.Json.{Json, null, str, obj}
use browseterm_device_agent.Json.Access.{get}
use browseterm_device_agent.Effects.{Action, ok, err, Exc, stuck, Result-cases}
use browseterm_device_agent.Clients.Maker.{SavedPod}
use browseterm_device_agent.Clients.Cloud.{HttpRequest, value, container_path, get_request}
use browseterm_device_agent.Clients.Cloud.Calls.{get_save_status}
use browseterm_device_agent.Commands.Env.{Env}
use browseterm_device_agent.Commands.Save.{
  SaveOutcome, Verdict, final, wait, ask, poll_once, poll, timeout_outcome,
}

module _ {W : Type 0} (env : Env W) (container_id request_id : String) (pod : SavedPod) where
  abbrev pub once : Action W Verdict
  once = poll_once env container_id request_id pod

  abbrev pub polling : ℕ → ℕ → Action W SaveOutcome
  polling fuel deadline = poll env container_id request_id fuel deadline pod

  -- One round, by what the Cloud has answered.
  pub poll-final :
      (fuel deadline : ℕ) (w : W) (outcome : SaveOutcome)
      → (once w).0 ≡ ok (final outcome)
      → polling (suc fuel) deadline w ≡ (ok outcome, (once w).1)
  unfolding poll
  poll-final fuel deadline w outcome h = ground arith

  pub poll-raise :
      (fuel deadline : ℕ) (w : W) (e : Exc)
      → (once w).0 ≡ err e
      → polling (suc fuel) deadline w ≡ (err e, (once w).1)
  unfolding poll
  poll-raise fuel deadline w e h = ground arith

  pub poll-late :
      (fuel deadline : ℕ) (w : W)
      → (once w).0 ≡ ok wait
      → leb deadline (env.monotonic (once w).1) ≡ true
      → polling (suc fuel) deadline w ≡ (ok (timeout_outcome pod), (once w).1)
  unfolding poll
  poll-late fuel deadline w h late = ground arith

  pub poll-again :
      (fuel deadline : ℕ) (w : W)
      → (once w).0 ≡ ok wait
      → leb deadline (env.monotonic (once w).1) ≡ false
      → polling (suc fuel) deadline w
        ≡ polling fuel deadline (env.sleep env.poll_interval (once w).1)
  unfolding poll
  poll-again fuel deadline w h early = ground arith

-- What is assumed of the clock and of the Cloud: every request comes to an end, the clock does not
-- go back while it is made, and a sleep takes a millisecond at least.
pub record IsLive {W : Type 0} (env : Env W) : Type 0 where
  pub answers : (r : HttpRequest) (w : W) → (env.cloud.api.send r w).0 ≢ err stuck
  pub forwards :
      (r : HttpRequest) (w : W) → env.monotonic w ≤ env.monotonic (env.cloud.api.send r w).1
  pub sleeps : (w : W) → env.monotonic w + 1 ≤ env.monotonic (env.sleep env.poll_interval w)

get-ne-stuck : (j : Json) (k : String) (d : Json) → get j k d ≢ err stuck
unfolding get
get-ne-stuck (obj fs) k d = λ e. cc
get-ne-stuck _ k d = λ e. cc

module _ {W : Type 0} (env : Env W) (live : IsLive env) (container_id request_id : String) where
  abbrev status_request : HttpRequest
  status_request = record (get_request (container_path env.cloud container_id "/save-status")) {
    params = ("request_id", value (str request_id)) ∷ [];
  }

  ask-ne-stuck : (w : W) → (ask env container_id request_id w).0 ≢ err stuck
  unfolding ask get_save_status
  ask-ne-stuck w = ground (arith, live.answers status_request w)

  ask-world :
      (w : W) → (ask env container_id request_id w).1 ≡ (env.cloud.api.send status_request w).1
  unfolding ask get_save_status
  ask-world w = ground arith

  module _ (pod : SavedPod) where
    once-world :
        (w : W)
        → (poll_once env container_id request_id pod w).1 ≡ (ask env container_id request_id w).1
    unfolding poll_once
    once-world w = ground arith

    once-ne-stuck : (w : W) → (poll_once env container_id request_id pod w).0 ≢ err stuck
    unfolding poll_once
    once-ne-stuck w = elim (Result-cases (ask env container_id request_id w).0) [
      | inl (j, h) ↦ ground (
        arith,
        get-ne-stuck j "status" null,
        get-ne-stuck j "image_reference" null,
        get-ne-stuck j "error_detail" null,
      )
      | inr (e, h) ↦ ground (arith, ask-ne-stuck w)
    ]

    once-forwards :
        (w : W) → env.monotonic w ≤ env.monotonic (poll_once env container_id request_id pod w).1
    once-forwards w = rw (once-world, ask-world) (live.forwards status_request w)

    early-lt :
        (deadline : ℕ) (w : W)
        → leb deadline (env.monotonic (poll_once env container_id request_id pod w).1) ≡ false
        → env.monotonic (poll_once env container_id request_id pod w).1 < deadline
    early-lt deadline w early = ground arith

    fuel_left :
        (fuel deadline : ℕ) (w : W)
        → deadline + 1 ≤ env.monotonic w + suc fuel
        → leb deadline (env.monotonic (poll_once env container_id request_id pod w).1) ≡ false
        → 0 < fuel
    fuel_left fuel deadline w enough early =
        omega (arith, once-forwards w, early-lt deadline w early)

    fuel_enough :
        (fuel deadline : ℕ) (w : W)
        → deadline + 1 ≤ env.monotonic w + suc fuel
        → deadline + 1
          ≤ env.monotonic
              (env.sleep env.poll_interval (poll_once env container_id request_id pod w).1)
            + fuel
    fuel_enough fuel deadline w enough =
        omega (arith, once-forwards w, live.sleeps (poll_once env container_id request_id pod w).1)

    -- If the Cloud answers, the clock does not go back and a sleep takes a millisecond at least,
    -- then the polling loop ends with fuel for every millisecond to the deadline and one unit
    -- more, and some fuel at least.
    pub poll-terminates :
        (fuel deadline : ℕ) (w : W)
        → 0 < fuel
        → deadline + 1 ≤ env.monotonic w + fuel
        → (poll env container_id request_id fuel deadline pod w).0 ≢ err stuck
    poll-terminates zero deadline w pos enough = absurd (omega arith)
    poll-terminates (suc fuel) deadline w pos enough =
        elim (Result-cases (poll_once env container_id request_id pod w).0) [
          | inl (final outcome, h) ↦
              rw (poll-final env container_id request_id pod fuel deadline w outcome h) (λ s. cc)
          | inl (wait, h) ↦
              elim (Bool-cases
                (leb deadline (env.monotonic (poll_once env container_id request_id pod w).1))) [
                  | inl late ↦
                      rw (poll-late env container_id request_id pod fuel deadline w h late)
                        (λ s. cc)
                  | inr early ↦
                      rw (poll-again env container_id request_id pod fuel deadline w h early) (
                        poll-terminates fuel deadline _ (fuel_left fuel deadline w enough early)
                          (fuel_enough fuel deadline w enough))
                ]
          | inr (e, h) ↦
              rw (poll-raise env container_id request_id pod fuel deadline w e h)
                (λ s. once-ne-stuck w (cc))
        ]
