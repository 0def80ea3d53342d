-- ===== src/Commands/Executor/Ordering.antt =====
-- The order of commands/executor.py's `_finish`: the journal first, then the report; and what a
-- report that raises makes of a success.
use browseterm_device_agent.Prelude.{ℕ, String, ◌≡◌, refl, sym, ap, ◌∙◌, some, inl, inr}
use browseterm_device_agent.Effects.{Exc, stuck, Result-cases}
use browseterm_device_agent.State.Journal.{Outcome}
use browseterm_device_agent.Commands.Env.{ExecuteCommand, Env, Handler}
use browseterm_device_agent.Commands.Executor.{
  Handlers, Report, execute, attempt, recover, start, finish, outcome_of,
}
use browseterm_device_agent.Commands.Executor.Rules.{
  IsReport, HasRow, Settled, record_result-Settled, attempt-ok, attempt-err, execute-ok,
  execute-err,
}
use browseterm_device_agent.Commands.Executor.Settles.{after-HasRow, tried-HasRow}
use browseterm_device_agent.Agent.{Agent}

module _ {W : Type 0} (env : Env W) (report other_report : Report W) (handlers : Handlers W)
    (is_report : IsReport report) (id : String)
    (agree : (generation : ℕ) (o : Outcome) (b : Agent W)
      → Settled id o b.journal
      → report id generation o b ≡ other_report id generation o b) where
  finish-agrees :
      (generation : ℕ) (o : Outcome) (b : Agent W)
      → HasRow id b.journal
      → finish env report id generation o b ≡ finish env other_report id generation o b
  unfolding finish
  finish-agrees generation o b h =
      agree generation o _ (record_result-Settled (env.now b.world) id o b.journal h)

  recover-agrees :
      (command : ExecuteCommand) (e : Exc) (b : Agent W)
      → HasRow id b.journal
      → recover env report id command e b ≡ recover env other_report id command e b
  unfolding recover
  recover-agrees command stuck b h = refl
  recover-agrees command _ b h = finish-agrees command.placement_generation _ b h

  module _ (command : ExecuteCommand) (a : Agent W) (handler : Handler W)
      (registered : handlers command.operation ≡ some handler) where
    abbrev begun : Agent W
    begun = start env id command a

    attempt-agrees :
        attempt env report id command handler begun
        ≡ attempt env other_report id command handler begun
    attempt-agrees = elim (Result-cases (handler command begun.world).0) [
      | inl (reply, h) ↦
          attempt-ok env report handlers id command handler begun reply h
          ∙ finish-agrees command.placement_generation (outcome_of reply) _
              (after-HasRow env report handlers is_report id command a handler registered reply)
          ∙ sym (attempt-ok env other_report handlers id command handler begun reply h)
      | inr (e, h) ↦
          attempt-err env report handlers id command handler begun e h
          ∙ sym (attempt-err env other_report handlers id command handler begun e h)
    ]

    -- A command with a handler is executed in the same way with any two reports that agree where
    -- the journal holds the outcome they are given, if the first takes no result back: a report
    -- is made only when its outcome is in the journal.
    pub execute-journals_first :
        execute env report handlers id command a ≡ execute env other_report handlers id command a
    execute-journals_first = elim (Result-cases (attempt env report id command handler begun).0) [
      | inl (done, h) ↦
          execute-ok env report handlers id command a handler registered h
          ∙ attempt-agrees
          ∙ sym (
              execute-ok env other_report handlers id command a handler registered
                (rw (← attempt-agrees) h))
      | inr (e, h) ↦
          execute-err env report handlers id command a handler e registered h
          ∙ recover-agrees command e _
              (tried-HasRow env report handlers is_report id command a handler registered)
          ∙ ap (λ t. recover env other_report id command e t.1) attempt-agrees
          ∙ sym (
              execute-err env other_report handlers id command a handler e registered
                (rw (← attempt-agrees) h))
    ]
