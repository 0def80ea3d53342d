-- ===== src/Control/Connection/Stream/Unsent.antt =====
-- A hello_accepted that control/grpc_client.py handles in the middle of the resends.
use browseterm_device_agent.Prelude.{ℕ, String, ◌≡◌, refl, ◌∙◌, ap, Bool, List, [], ◌∷◌, ◌++◌}
use browseterm_device_agent.Effects.{Action, ok}
use browseterm_device_agent.State.Journal.{unreported_terminal_entries}
use browseterm_device_agent.State.Journal.Unique.{IsUnique}
use browseterm_device_agent.Commands.Env.{ExecuteCommand, Env}
use browseterm_device_agent.Control.Connection.{
  build_unreported_results, resend, handle_inbound, hello_accepted,
}
use browseterm_device_agent.Control.Connection.Session.{resend-acknowledged}
use browseterm_device_agent.Control.Connection.Stream.{
  greeted, sending, pulled, delivered, Stream, yield_message, pull_from, pull, step, run,
}
use browseterm_device_agent.Control.Connection.Stream.Steps.{pull_from-ok, run-ok}
use browseterm_device_agent.Agent.{Agent, Message}

module _ {W : Type 0} (env : Env W)
    (on_execute_command : String → ExecuteCommand → Action (Agent W) (Unit {0}))
    (greeting : Message) (s : Stream W) (m next : Message) (ms : List Message)
    (at_stage : s.stage ≡ greeted)
    (built : build_unreported_results s.agent.journal ≡ ok (m ∷ next ∷ ms)) where
  step-first :
      step env on_execute_command greeting pulled s
      ≡ (ok tt, yield_message (sending (next ∷ ms)) (resend s.agent).1 m s)
  unfolding step pull resend build_unreported_results
  step-first =
      ap (λ stage. pull_from greeting stage s) at_stage
      ∙ pull_from-ok greeting s (m ∷ next ∷ ms) built

  abbrev acknowledged : (generation : ℕ) (required : Bool) → Stream W
  acknowledged generation required =
      (run env on_execute_command greeting
        (pulled ∷ delivered (hello_accepted generation required) ∷ []) s).1

  acknowledged-stream :
      (generation : ℕ) (required : Bool)
      → acknowledged generation required ≡ record {
        stage = sending (next ∷ ms);
        sent = s.sent ++ m ∷ [];
        agent =
            (handle_inbound env on_execute_command
              (hello_accepted generation required)
              (resend s.agent).1).1;
      }
  acknowledged-stream generation required =
      let later = delivered (hello_accepted generation required) ∷ [] in
      let go = run-ok env on_execute_command greeting pulled later s (ap (λ r. r.0) step-first) in
      ap (λ r. r.1) go
      ∙ ap (λ r. (run env on_execute_command greeting later r.1).1) step-first
      ∙ unfold run step handle_inbound in refl

  -- If the generator of a connection has yielded the Hello, the table has one row at most for each
  -- command and two results at least are unreported, then after one pull and a hello_accepted only
  -- the first of them is sent, the others are left to yield, and yet nothing is left to resend on
  -- a later connection.
  pub acknowledged-unsent :
      (generation : ℕ) (required : Bool)
      → IsUnique s.agent.journal
      → let t =
          (run env on_execute_command greeting
            (pulled ∷ delivered (hello_accepted generation required) ∷ [])
            s).1 in
        (t.sent ≡ s.sent ++ m ∷ [])
        × (t.stage ≡ sending (next ∷ ms))
        × (unreported_terminal_entries t.agent.journal ≡ [])
  acknowledged-unsent generation required u =
      let e = acknowledged-stream generation required in
      (
        ap (λ t. t.sent) e,
        ap (λ t. t.stage) e,
        ap (λ t. unreported_terminal_entries t.agent.journal) e
            ∙ resend-acknowledged env on_execute_command generation required s.agent u,
      )
