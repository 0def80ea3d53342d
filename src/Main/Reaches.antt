-- ===== src/Main/Reaches.antt =====
-- The connections of control/grpc_client.py and its loop, as device_agent/main.py starts it, run
-- through the states of a session and no others.
use browseterm_device_agent.Prelude.{
  ℕ, ◌≡◌, refl, Bool, true, false, none, some, List, [], ◌∷◌, arith, inl, inr, Option-cases,
  if◌then◌else◌,
}
use browseterm_device_agent.Effects.{Result-cases}
use browseterm_device_agent.Commands.Env.{Env}
use browseterm_device_agent.Control.Connection.{build_unreported_results, resend}
use browseterm_device_agent.Control.Connection.Messages.{build_unreported_results-messages}
use browseterm_device_agent.Control.Connection.Stream.{
  Stage, fresh, greeted, sending, Event, pulled, delivered, beat, queued, passed, Stream,
  yield_queued, yield_resends, pull_from, pull, step, run, connect_once, opened,
}
use browseterm_device_agent.Control.Connection.Stream.Steps.{pull_from-ok, run-ok, run-err}
use browseterm_device_agent.Control.Connection.Loop.{
  Connecting, no_channel, connecting, Round, Wake, rested, stopped_asleep, cancelled_asleep, Ending,
  clean, failed, interrupted, hung, Loop, asleep, after_sleep, after_round, exits, returned,
  try_connect, run_from, run_forever,
}
use browseterm_device_agent.Main.{on_execute_command}
use browseterm_device_agent.Main.Session
use browseterm_device_agent.Main.Session.{Step, Reach, here, next}
use browseterm_device_agent.Agent.{Agent, Message}

module _ {W : Type 0} (b : Agent W) (s : Stream W) where
  yield_queued-none : b.outbound ≡ none → (yield_queued b s).agent ≡ b
  yield_queued-none e = ground arith

  yield_queued-empty : b.outbound ≡ some [] → (yield_queued b s).agent ≡ b
  yield_queued-empty e = ground arith

  yield_queued-taken :
      (m : Message) (q : List Message)
      → b.outbound ≡ some (m ∷ q)
      → (yield_queued b s).agent ≡ record b { outbound = some q }
  yield_queued-taken m q e = ground arith

-- Wherever a round is left, the loop is where the connection, the sleep or the rest has led.
module _ {W : Type 0} (P : Agent W → Type 0) (delay : ℕ) (b c : Agent W) (rest : Loop W)
    (at_b : P b) (at_c : P c) (at_rest : P rest.agent) where
  after_sleep-kept : (woken : Wake) → P (after_sleep woken delay c rest).agent
  after_sleep-kept rested = at_rest
  after_sleep-kept stopped_asleep = at_c
  after_sleep-kept cancelled_asleep = at_c

  reconnect-kept :
      (stopped : Bool) (woken : Wake)
      → P (if stopped then exits returned [] b else after_sleep woken delay c rest).agent
  reconnect-kept true woken = at_b
  reconnect-kept false woken = after_sleep-kept woken

  after_round-kept :
      (ending : Ending) (stopped : Bool) (woken : Wake)
      → P (after_round ending stopped woken delay b c rest).agent
  after_round-kept clean stopped woken = reconnect-kept stopped woken
  after_round-kept failed stopped woken = reconnect-kept stopped woken
  after_round-kept interrupted stopped woken = at_b
  after_round-kept hung stopped woken = at_b

module _ {W : Type 0} (env : Env W) (greeting : Message) where
  Reach-trans : {a b c : Agent W} → Reach env a b → Reach env b c → Reach env a c
  Reach-trans r here = r
  Reach-trans r (next t s) = next (Reach-trans r t) s

  yield_queued-Reach :
      (a b : Agent W) (s : Stream W) → Reach env a b → Reach env a (yield_queued b s).agent
  yield_queued-Reach a b s r = elim (Option-cases b.outbound) [
    | inl e ↦ rw (yield_queued-none b s e) r
    | inr ([], e) ↦ rw (yield_queued-empty b s e) r
    | inr ((m ∷ q), e) ↦ rw (yield_queued-taken b s m q e) (next r (Session.taken m q e refl))
  ]

  yield_resends-Reach :
      (ms : List Message) (a b : Agent W) (s : Stream W)
      → Reach env a b
      → Reach env a (yield_resends ms b s).agent
  yield_resends-Reach [] a b s r = yield_queued-Reach a b s r
  yield_resends-Reach (m ∷ ms) a b s r = r

  pull_from-Reach :
      (stage : Stage) (s : Stream W) → Reach env s.agent (pull_from greeting stage s).1.agent
  unfolding resend build_unreported_results
  pull_from-Reach fresh s = unfold pull_from in here
  pull_from-Reach greeted s =
      rw (pull_from-ok greeting s _ (build_unreported_results-messages s.agent.journal))
        (yield_resends-Reach _ s.agent (resend s.agent).1 s (next here (Session.resent refl)))
  pull_from-Reach (sending ms) s = unfold pull_from in yield_resends-Reach ms s.agent s.agent s here

  step-Reach :
      (e : Event W) (s : Stream W)
      → Reach env s.agent (step env (on_execute_command env) greeting e s).1.agent
  unfolding step pull
  step-Reach pulled s = pull_from-Reach s.stage s
  step-Reach (delivered m) s = next here (Session.received m refl)
  step-Reach beat s = next here (Session.beaten refl)
  step-Reach (queued m) s = next here (Session.queued m refl)
  step-Reach (passed w) s = next here (Session.waited w refl)

  run-Reach :
      (es : List (Event W)) (s : Stream W)
      → Reach env s.agent (run env (on_execute_command env) greeting es s).1.agent
  run-Reach [] s = unfold run in here
  run-Reach (e ∷ es) s = elim (Result-cases (step env (on_execute_command env) greeting e s).0) [
    | inl (done, h) ↦
        rw (run-ok env (on_execute_command env) greeting e es s h)
          (Reach-trans (step-Reach e s) (run-Reach es _))
    | inr (x, h) ↦ rw (run-err env (on_execute_command env) greeting e es s x h) (step-Reach e s)
  ]

  try_connect-Reach :
      (c : Connecting W) (a : Agent W)
      → Reach env a (try_connect env (on_execute_command env) greeting c a).1
  unfolding try_connect connect_once
  try_connect-Reach no_channel a = here
  try_connect-Reach (connecting es c) a =
      Reach-trans (next here (Session.opened refl)) (run-Reach es (opened a))

  slept-Reach :
      (delay : ℕ) (c : Connecting W) (a : Agent W)
      → Reach env a (asleep env delay (try_connect env (on_execute_command env) greeting c a).1)
  slept-Reach delay c a = next (try_connect-Reach c a) (Session.waited _ refl)

  run_from-Reach :
      (rs : List (Round W)) (attempt : ℕ) (a : Agent W)
      → Reach env a (run_from env (on_execute_command env) greeting rs attempt a).agent
  unfolding run_from
  run_from-Reach [] attempt a = here
  run_from-Reach (r ∷ rs) attempt a =
      let slept = slept-Reach _ r.connection a in
      after_round-kept (Reach env a) _ _ _ _ (try_connect-Reach r.connection a) slept
        (Reach-trans slept (run_from-Reach rs _ _)) _ r.stopped r.woken

  -- Wherever the loop is left or stands, whatever its connections, messages, stops and cancels
  -- are, the agent is in a state that a session of the process can reach by its single steps: a
  -- new connection, the resend, a message taken off the queue, a message handled, a heartbeat, a
  -- message put on the queue, and time.
  pub run_forever-Reach :
      (stopped : Bool) (rs : List (Round W)) (a : Agent W)
      → Reach env a (run_forever env (on_execute_command env) greeting stopped rs a).agent
  unfolding run_forever
  run_forever-Reach true rs a = here
  run_forever-Reach false rs a = run_from-Reach rs 0 a
