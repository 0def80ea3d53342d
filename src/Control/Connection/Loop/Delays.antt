-- ===== src/Control/Connection/Loop/Delays.antt =====
-- How long the loop of control/grpc_client.py waits, and that it goes on.
use browseterm_device_agent.Prelude.{
  ℕ, suc, ◌+◌, ◌-◌, false, String, List, [], ◌∷◌, All, ◌≡◌, ◌≢◌, refl, arith, inl, inr, ◌⊎◌, ap,
  ◌∙◌, Bool-cases,
}
use browseterm_device_agent.Effects.{Action, Result, ok, err, stuck, Result-cases}
use browseterm_device_agent.Commands.Env.{ExecuteCommand, Env}
use browseterm_device_agent.State.Journal.{has_terminal_result}
use browseterm_device_agent.Control.Backoff.{backoff_seconds}
use browseterm_device_agent.Control.Connection.{
  CloudToDevice, execute_command, hello_accepted, ping, server_draining, not_handled,
  handle_inbound, accept_command, resend, build_unreported_results,
}
use browseterm_device_agent.Control.Connection.Messages.{build_unreported_results-messages}
use browseterm_device_agent.Control.Connection.Inbound.{
  handle_inbound-duplicate, handle_inbound-new,
}
use browseterm_device_agent.Control.Connection.Stream.{
  Stage, fresh, greeted, sending, Event, pulled, delivered, beat, queued, passed, Stream, step, run,
  connect_once, pull_from, pull,
}
use browseterm_device_agent.Control.Connection.Stream.Steps.{run-ok, run-err, pull_from-ok}
use browseterm_device_agent.Control.Connection.Loop.{
  Close, over, raised, cancelled, Connecting, no_channel, connecting, Round, rested, Ending, clean,
  failed, ending_of, Loop, going, attempt_after, with_delay, try_connect, run_from, run_forever,
  asleep,
}
use browseterm_device_agent.Agent.{Agent, Message}

-- A round in which nobody stops or cancels the loop.
abbrev pub IsUncancelled : {W : Type 0} → Connecting W → Type 0
IsUncancelled no_channel = Unit
IsUncancelled (connecting es c) = c ≢ cancelled

abbrev pub IsUndisturbed : {W : Type 0} → Round W → Type 0
IsUndisturbed r = (r.stopped ≡ false) × ((r.woken ≡ rested) × IsUncancelled r.connection)

-- The rounds since the last clean one, that one included, newest first; all of them if none was.
abbrev pub since_clean : List Ending → ℕ
since_clean [] = 0
since_clean (clean ∷ h) = 1
since_clean (e ∷ h) = suc (since_clean h)

module _ {W : Type 0} (env : Env W)
    (on_execute_command : String → ExecuteCommand → Action (Agent W) (Unit {0}))
    (greeting : Message) where
  -- The delays that the rounds have, by the ends of the connections so far.
  abbrev pub expected_delays : List Ending → List (Round W) → Agent W → List ℕ
  expected_delays h [] a = []
  expected_delays h (r ∷ rs) a =
      let (ending, b) = try_connect env on_execute_command greeting r.connection a in
      let delay = backoff_seconds env.jitter r.uniform (since_clean (ending ∷ h) - 1) in
      delay ∷ expected_delays (ending ∷ h) rs (asleep env delay b)

module _ {W : Type 0} (env : Env W)
    (on_execute_command : String → ExecuteCommand → Action (Agent W) (Unit {0}))
    (ends : (id : String) (command : ExecuteCommand) (a : Agent W)
      → (on_execute_command id command a).0 ≢ err stuck)
    (greeting : Message) where
  handle_inbound-ends :
      (m : CloudToDevice) (a : Agent W) → (handle_inbound env on_execute_command m a).0 ≢ err stuck
  handle_inbound-ends (hello_accepted g r) a = unfold handle_inbound in λ s. cc
  handle_inbound-ends (execute_command command) a =
      elim (Bool-cases (has_terminal_result command.command_id a.journal)) [
        | inl old ↦ rw (handle_inbound-duplicate env on_execute_command command a old) (λ s. cc)
        | inr new ↦
            rw (handle_inbound-new env on_execute_command command a new)
              (unfold accept_command in ends command.command_id command _)
      ]
  handle_inbound-ends (ping n) a = unfold handle_inbound in λ s. cc
  handle_inbound-ends (server_draining n) a = unfold handle_inbound in λ s. cc
  handle_inbound-ends not_handled a = unfold handle_inbound in λ s. cc

  pull_from-ends : (stage : Stage) (s : Stream W) → (pull_from greeting stage s).0 ≢ err stuck
  unfolding resend build_unreported_results
  pull_from-ends fresh s = unfold pull_from in λ e. cc
  pull_from-ends greeted s =
      rw (pull_from-ok greeting s _ (build_unreported_results-messages s.agent.journal)) (λ e. cc)
  pull_from-ends (sending ms) s = unfold pull_from in λ e. cc

  step-ends :
      (e : Event W) (s : Stream W) → (step env on_execute_command greeting e s).0 ≢ err stuck
  unfolding step pull
  step-ends pulled s = pull_from-ends s.stage s
  step-ends (delivered m) s = handle_inbound-ends m s.agent
  step-ends beat s = λ e. cc
  step-ends (queued m) s = λ e. cc
  step-ends (passed w) s = λ e. cc

  run-ends :
      (es : List (Event W)) (s : Stream W)
      → (run env on_execute_command greeting es s).0 ≢ err stuck
  run-ends [] s = unfold run in λ e. cc
  run-ends (e ∷ es) s = elim (Result-cases (step env on_execute_command greeting e s).0) [
    | inl (done, h) ↦ rw (run-ok env on_execute_command greeting e es s h) (run-ends es _)
    | inr (x, h) ↦
        rw (run-err env on_execute_command greeting e es s x h) (λ same. step-ends e s (h ∙ same))
  ]

  ending-cases :
      (r : Result (Unit {0})) (c : Close)
      → r ≢ err stuck
      → c ≢ cancelled
      → (ending_of r c ≡ clean) ⊎ (ending_of r c ≡ failed)
  ending-cases (ok done) over h k = inl refl
  ending-cases (ok done) (raised e) h k = inr refl
  ending-cases (ok done) cancelled h k = absurd (k refl)
  ending-cases (err stuck) c h k = absurd (h refl)
  ending-cases (err _) c h k = inr refl

  try_connect-cases :
      (c : Connecting W) (a : Agent W)
      → IsUncancelled c
      → ((try_connect env on_execute_command greeting c a).0 ≡ clean)
        ⊎ ((try_connect env on_execute_command greeting c a).0 ≡ failed)
  unfolding try_connect connect_once
  try_connect-cases no_channel a h = inr refl
  try_connect-cases (connecting es c) a h = ending-cases _ c (run-ends es _) h

  -- Where the sleep after a round leaves the agent.
  abbrev rest_of : Ending → Round W → List (Round W) → ℕ → Agent W → Loop W
  rest_of ending r rs attempt a =
      let n = attempt_after ending attempt in
      let delay = backoff_seconds env.jitter r.uniform n in
      with_delay delay (
        run_from env on_execute_command greeting rs (n + 1)
          (asleep env delay (try_connect env on_execute_command greeting r.connection a).1))

  run_from-clean :
      (r : Round W) (rs : List (Round W)) (attempt : ℕ) (a : Agent W)
      → r.stopped ≡ false
      → r.woken ≡ rested
      → (try_connect env on_execute_command greeting r.connection a).0 ≡ clean
      → run_from env on_execute_command greeting (r ∷ rs) attempt a ≡ rest_of clean r rs attempt a
  unfolding run_from
  run_from-clean r rs attempt a s w e = ground arith

  run_from-failed :
      (r : Round W) (rs : List (Round W)) (attempt : ℕ) (a : Agent W)
      → r.stopped ≡ false
      → r.woken ≡ rested
      → (try_connect env on_execute_command greeting r.connection a).0 ≡ failed
      → run_from env on_execute_command greeting (r ∷ rs) attempt a ≡ rest_of failed r rs attempt a
  unfolding run_from
  run_from-failed r rs attempt a s w e = ground arith

  run_from-delays :
      (h : List Ending) (rs : List (Round W)) (a : Agent W)
      → All IsUndisturbed rs
      → ((run_from env on_execute_command greeting rs (since_clean h) a).exit ≡ going)
        × ((run_from env on_execute_command greeting rs (since_clean h) a).delays
            ≡ expected_delays env on_execute_command greeting h rs a)
  run_from-delays h [] a u = unfold run_from in (refl, refl)
  run_from-delays h (r ∷ rs) a u = elim (try_connect-cases r.connection a u.0.1.1) [
    | inl e ↦
        rw (run_from-clean r rs (since_clean h) a u.0.0 u.0.1.0 e, e)
          (let (g, d) = run_from-delays (clean ∷ h) rs _ u.1 in
            (g, ap (λ l. backoff_seconds env.jitter r.uniform 0 ∷ l) d))
    | inr e ↦
        let next : since_clean h + 1 ≡ suc (since_clean h) = omega arith in
        let here : suc (since_clean h) - 1 ≡ since_clean h = omega arith in
        rw (run_from-failed r rs (since_clean h) a u.0.0 u.0.1.0 e, e, rest_of, next, here)
          (let (g, d) = run_from-delays (failed ∷ h) rs _ u.1 in
            (g, ap (λ l. backoff_seconds env.jitter r.uniform (since_clean h) ∷ l) d))
  ]

  pub run_forever-delays :
      (rs : List (Round W)) (a : Agent W)
      → All IsUndisturbed rs
      → ((run_forever env on_execute_command greeting false rs a).exit ≡ going)
        × ((run_forever env on_execute_command greeting false rs a).delays
            ≡ expected_delays env on_execute_command greeting [] rs a)
  unfolding run_forever
  run_forever-delays rs a u = run_from-delays [] rs a u
