-- ===== src/Control/Connection/Stream/Steps.antt =====
-- One step of a connection of control/grpc_client.py, by how it ends.
use browseterm_device_agent.Prelude.{String, ◌≡◌, List, ◌∷◌, arith, inl, inr}
use browseterm_device_agent.Effects.{Action, ok, err, Exc, Result-cases}
use browseterm_device_agent.Commands.Env.{ExecuteCommand, Env}
use browseterm_device_agent.Control.Connection.{resend}
use browseterm_device_agent.Control.Connection.Stream.{
  greeted, Event, Stream, yield_resends, pull_from, step, run,
}
use browseterm_device_agent.Agent.{Agent, Message}

module _ {W : Type 0} (greeting : Message) where
  pub pull_from-ok :
      (s : Stream W) (ms : List Message)
      → (resend s.agent).0 ≡ ok ms
      → pull_from greeting greeted s ≡ (ok tt, yield_resends ms (resend s.agent).1 s)
  unfolding pull_from
  pull_from-ok s ms e = ground arith

  pub pull_from-err :
      (s : Stream W) (x : Exc)
      → (resend s.agent).0 ≡ err x
      → pull_from greeting greeted s ≡ (err x, record s { agent = (resend s.agent).1 })
  unfolding pull_from
  pull_from-err s x e = ground arith

module _ {W : Type 0} (env : Env W)
    (on_execute_command : String → ExecuteCommand → Action (Agent W) (Unit {0}))
    (greeting : Message) where
  pub run-ok :
      (e : Event W) (es : List (Event W)) (s : Stream W)
      → (step env on_execute_command greeting e s).0 ≡ ok tt
      → run env on_execute_command greeting (e ∷ es) s
        ≡ run env on_execute_command greeting es (step env on_execute_command greeting e s).1
  unfolding run
  run-ok e es s h = ground arith

  pub run-err :
      (e : Event W) (es : List (Event W)) (s : Stream W) (x : Exc)
      → (step env on_execute_command greeting e s).0 ≡ err x
      → run env on_execute_command greeting (e ∷ es) s
        ≡ (err x, (step env on_execute_command greeting e s).1)
  unfolding run
  run-err e es s x h = ground arith

  -- A run that is not ended by an exception goes on from its first step.
  pub run-steps :
      (e : Event W) (es : List (Event W)) (s : Stream W)
      → (run env on_execute_command greeting (e ∷ es) s).0 ≡ ok tt
      → ((step env on_execute_command greeting e s).0 ≡ ok tt)
        × (run env on_execute_command greeting (e ∷ es) s
            ≡ run env on_execute_command greeting es (step env on_execute_command greeting e s).1)
  run-steps e es s done = elim (Result-cases (step env on_execute_command greeting e s).0) [
    | inl (u, h) ↦ (h, run-ok e es s h)
    | inr (x, h) ↦ absurd (cc (run-err e es s x h))
  ]
