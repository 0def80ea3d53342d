-- ===== src/Commands/Executor/Terminal.antt =====
-- A command that commands/executor.py has executed has its terminal result.
use browseterm_device_agent.Prelude.{String, ◌≡◌, ◌≢◌, refl, true, some, arith, inl, inr}
use browseterm_device_agent.Effects.{ok, err, Exc, stuck, Result-cases}
use browseterm_device_agent.State.Journal.{Outcome, has_terminal_result, is_terminal}
use browseterm_device_agent.State.Journal.Unique.{has_terminal_result-found}
use browseterm_device_agent.Commands.Env.{ExecuteCommand, Env, Reply, Handler}
use browseterm_device_agent.Commands.Executor.{Handlers, Report, execute, recover, outcome_of}
use browseterm_device_agent.Commands.Executor.Rules.{IsReport, Settled, execute-ok, execute-err}
use browseterm_device_agent.Agent.{Agent}
use browseterm_device_agent.Commands.Executor.Settles
use browseterm_device_agent.Commands.Executor.Settles.{tried, rescued-Settled}

outcome_of-terminal : (reply : Reply) → is_terminal (outcome_of reply).status ≡ true
unfolding outcome_of
outcome_of-terminal reply = ground arith

module _ {W : Type 0} (env : Env W) (report_result : Report W) (handlers : Handlers W)
    (is_report : IsReport report_result) (id : String) (command : ExecuteCommand) (a : Agent W)
    (handler : Handler W) (registered : handlers command.operation ≡ some handler) where
  alive-ne :
      (e : Exc)
      → (tried env report_result handlers is_report id command a handler registered).0 ≡ err e
      → (execute env report_result handlers id command a).0 ≢ err stuck
      → e ≢ stuck
  unfolding recover
  alive-ne e h alive same =
      alive
        (rw (execute-err env report_result handlers id command a handler e registered h, same) refl)

  Settled-terminal :
      (o : Outcome) (b : Agent W)
      → is_terminal o.status ≡ true
      → Settled id o b.journal
      → has_terminal_result id b.journal ≡ true
  Settled-terminal o b terminal s =
      has_terminal_result-found id b.journal s.row s.found (rw s.status terminal)

  tried-terminal :
      (tried env report_result handlers is_report id command a handler registered).0 ≡ ok tt
      → has_terminal_result id
          (tried env report_result handlers is_report id command a handler registered).1.journal
        ≡ true
  tried-terminal done = elim (Result-cases (handler command a.world).0) [
    | inl (reply, h) ↦
        Settled-terminal (outcome_of reply)
          (tried env report_result handlers is_report id command a handler registered).1
          (outcome_of-terminal reply)
          (Settles.tried-ok env report_result handlers is_report id command a handler registered
            reply h)
    | inr (e, h) ↦
        cc (
          Settles.tried-err env report_result handlers is_report id command a handler registered e
            h)
  ]

  -- A registered command that does not hang is left with a terminal result in the journal, also
  -- when its handler or the report raises.
  pub execute-terminal :
      (execute env report_result handlers id command a).0 ≢ err stuck
      → has_terminal_result id (execute env report_result handlers id command a).1.journal ≡ true
  execute-terminal alive =
      elim (Result-cases
        (tried env report_result handlers is_report id command a handler registered).0) [
          | inl (done, h) ↦
              rw (execute-ok env report_result handlers id command a handler registered h)
                (tried-terminal h)
          | inr (e, h) ↦
              Settled-terminal _ (execute env report_result handlers id command a).1 refl (
                rescued-Settled env report_result handlers is_report id command a handler registered
                  e h (alive-ne e h alive))
        ]
