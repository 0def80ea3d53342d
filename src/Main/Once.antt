-- ===== src/Main/Once.antt =====
-- A command that is finished stays finished, with the same result, over messages, reconnects and
-- crashes; and it is never executed again.
use browseterm_device_agent.Prelude.{String, ◌≡◌, ◌≢◌, true, false, some}
use browseterm_device_agent.Effects.{ok}
use browseterm_device_agent.State.Journal.{
  Journal, JournalEntry, get, has_terminal_result, is_terminal,
}
use browseterm_device_agent.State.Journal.Unique.{has_terminal_result-found}
use browseterm_device_agent.State.Journal.Progress.{
  Keeps, Keeps-refl, Keeps-record_accepted, Keeps-record_running, Keeps-record_result,
  Keeps-mark_reported,
}
use browseterm_device_agent.Commands.Env.{ExecuteCommand, Env}
use browseterm_device_agent.Commands.Executor.Isolation.{execute-Keeps}
use browseterm_device_agent.Control.Connection.{
  CloudToDevice, execute_command, accept_command, handle_inbound, open_stream, resend,
  send_heartbeat,
}
use browseterm_device_agent.Control.Connection.Inbound.{
  handle_inbound-duplicate, handle_inbound-kept,
}
use browseterm_device_agent.Main.{report_result, handlers, on_execute_command}
use browseterm_device_agent.Main.Report.{report_result-IsReport}
use browseterm_device_agent.Main.Session.{
  Written, nothing, accepting, starting, finishing, reporting, Step, opened, resent, received,
  taken, beaten, queued, waited, died, died_executing, Reach, here, next,
}
use browseterm_device_agent.Agent.{Agent, send}

-- The finished command `e` has its row, with the result.
pub record Finished (e : JournalEntry) (t : Journal) : Type 0 where
  pub terminal : is_terminal e.status ≡ true
  pub keeps : Keeps e t

Finished-has_terminal :
    (e : JournalEntry) (t : Journal) → Finished e t → has_terminal_result e.command_id t ≡ true
Finished-has_terminal e t f =
    has_terminal_result-found e.command_id t f.keeps.row f.keeps.found
      (rw f.keeps.same.same_status f.terminal)

-- A command with no terminal result is another one.
unfinished-ne :
    (e : JournalEntry) (id : String) (t : Journal)
    → Finished e t
    → has_terminal_result id t ≡ false
    → id ≢ e.command_id
unfinished-ne e id t f h same = cc (Finished-has_terminal e t f)

Written-Keeps :
    {W : Type 0} (env : Env W) (e : JournalEntry) (command : ExecuteCommand) {t u : Journal}
    → command.command_id ≢ e.command_id
    → Written env command t u
    → Keeps e t
    → Keeps e u
Written-Keeps env e c ne nothing k = k
Written-Keeps env e c ne (accepting {u} now generation operation w) k =
    Keeps-record_accepted now c.command_id u (Written-Keeps env e c ne w k) operation generation
Written-Keeps env e c ne (starting {u} now w) k =
    Keeps-record_running now c.command_id u (Written-Keeps env e c ne w k) ne
Written-Keeps env e c ne (finishing {u} now o r w) k =
    Keeps-record_result now c.command_id u (Written-Keeps env e c ne w k) o ne
Written-Keeps env e c ne (reporting {u} now w) k =
    Keeps-mark_reported now c.command_id u (Written-Keeps env e c ne w k)

module _ {W : Type 0} (env : Env W) where
  accept-Keeps :
      (e : JournalEntry) (command : ExecuteCommand) (a : Agent W)
      → command.command_id ≢ e.command_id
      → Keeps e a.journal
      → Keeps e (accept_command env (on_execute_command env) command a).1.journal
  unfolding accept_command on_execute_command send
  accept-Keeps e command a ne k =
      execute-Keeps env (report_result env) (handlers env) (report_result-IsReport env)
        command.command_id command _ e ne
        (Keeps-record_accepted _ command.command_id a.journal k _ _)

  received-Keeps :
      (e : JournalEntry) (m : CloudToDevice) (a : Agent W)
      → Finished e a.journal
      → Keeps e (handle_inbound env (on_execute_command env) m a).1.journal
  received-Keeps e m a f =
      handle_inbound-kept env (on_execute_command env) (Keeps e) m a
        (λ now id t. Keeps-mark_reported now id t)
        (λ command new.
          accept-Keeps e command a (unfinished-ne e command.command_id a.journal f new) f.keeps)
        f.keeps

  Step-Keeps :
      (e : JournalEntry) {a b : Agent W} → Step env a b → Finished e a.journal → Keeps e b.journal
  Step-Keeps e (opened s) f = rw s (unfold open_stream in f.keeps)
  Step-Keeps e (resent s) f = rw s (unfold resend in f.keeps)
  Step-Keeps e {a} (received m s) f = rw s (received-Keeps e m a f)
  Step-Keeps e (taken m q h s) f = rw s f.keeps
  Step-Keeps e (beaten s) f = rw s (unfold send_heartbeat send in f.keeps)
  Step-Keeps e (queued m s) f = rw s (unfold send in f.keeps)
  Step-Keeps e (waited w s) f = rw s f.keeps
  Step-Keeps e (died w s) f = rw s f.keeps
  Step-Keeps e {a} (died_executing command t w new written s) f = rw s (
      Written-Keeps env e command (unfinished-ne e command.command_id a.journal f new) written
        f.keeps)

  -- If the command of a row has its terminal result in the journal, then every state that the
  -- agent can reach, over messages, reconnects and crashes, has a row with the same result.
  pub Reach-Keeps :
      (e : JournalEntry) {a b : Agent W} → Reach env a b → Finished e a.journal → Keeps e b.journal
  Reach-Keeps e here f = f.keeps
  Reach-Keeps e (next r s) f =
      Step-Keeps e s (record { terminal = f.terminal; keeps = Reach-Keeps e r f })

  -- From then on every delivery of the command, in any later state, changes nothing at all.
  pub Reach-delivery_ignored :
      (e : JournalEntry) {a b : Agent W} (command : ExecuteCommand)
      → Reach env a b
      → get e.command_id a.journal ≡ some e
      → is_terminal e.status ≡ true
      → command.command_id ≡ e.command_id
      → handle_inbound env (on_execute_command env) (execute_command command) b ≡ (ok tt, b)
  Reach-delivery_ignored e {a} {b} command r found terminal same =
      handle_inbound-duplicate env (on_execute_command env) command b (
        rw same (
          Finished-has_terminal e b.journal (record {
            terminal = terminal;
            keeps =
                Reach-Keeps e r
                  (record { terminal = terminal; keeps = Keeps-refl e a.journal found });
          })))
