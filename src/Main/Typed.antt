-- ===== src/Main/Typed.antt =====
-- The results in the journal are typed in every state that the agent can reach.
pub mod Resent
use browseterm_device_agent.Prelude.{
  String, ◌≡◌, refl, Option, none, some, List, [], ◌∷◌, All, arith, inl, inr, Bool, Bool-cases,
  if◌then◌else◌, leb,
}
use browseterm_device_agent.Json.{Json, Payload, plain, dumped}
use browseterm_device_agent.Effects.{Result, ok}
use browseterm_device_agent.Effects.Post.{of_ok}
use browseterm_device_agent.State.Journal.{
  Outcome, Journal, JournalEntry, is_terminal, insert_by_time, order_by_time, select_unreported,
  unreported_terminal_entries, is_unreported,
}
use browseterm_device_agent.Commands.Env.{Operation, ExecuteCommand, Env}
use browseterm_device_agent.Commands.Executor.Isolation.{execute-kept}
use browseterm_device_agent.Commands.Typing.{HasType, result_type}
use browseterm_device_agent.Commands.Typing.Replies.{handlers-IsReply}
use browseterm_device_agent.Commands.Typing.Rows.{
  IsTyped, unfinished, success, failure, OutcomeIsTyped, RowIsTyped, AllTyped, outcome_of-IsTyped,
  record_accepted-AllTyped, record_running-AllTyped, record_result-AllTyped, mark_reported-AllTyped,
}
use browseterm_device_agent.Control.Connection.{
  CloudToDevice, accept_command, handle_inbound, open_stream, resend, send_heartbeat,
  build_unreported_results,
}
use browseterm_device_agent.Control.Connection.Inbound.{handle_inbound-kept}
use browseterm_device_agent.Control.Connection.Messages.{
  message_of, build_unreported_results-messages,
}
use browseterm_device_agent.Main.{report_result, handlers, on_execute_command}
use browseterm_device_agent.Main.Report.{report-kept}
use browseterm_device_agent.Main.Session.{
  Recorded, replied, failing, Written, nothing, accepting, starting, finishing, reporting, Step,
  opened, resent, received, taken, beaten, queued, waited, died, died_executing, Reach, here, next,
}
use browseterm_device_agent.Agent.{
  Agent, Message, CommandResult, WireStatus, wire_succeeded, wire_failed, command_result, send,
}

module _ {W : Type 0} (env : Env W) where
  Recorded-IsTyped :
      (command : ExecuteCommand) {o : Outcome} → Recorded env command o → OutcomeIsTyped o
  Recorded-IsTyped command (replied handler w reply h r) =
      outcome_of-IsTyped command.operation
        (of_ok (rw r at (handlers-IsReply env command.operation handler h command w)))
  Recorded-IsTyped command (failing code message) = failure

  Written-AllTyped :
      (c : ExecuteCommand) {t u : Journal} → Written env c t u → AllTyped t → AllTyped u
  Written-AllTyped c nothing h = h
  Written-AllTyped c (accepting {u} now generation operation w) h =
      record_accepted-AllTyped now c.command_id operation generation u (Written-AllTyped c w h)
  Written-AllTyped c (starting {u} now w) h =
      record_running-AllTyped now c.command_id u (Written-AllTyped c w h)
  Written-AllTyped c (finishing {u} now o r w) h =
      record_result-AllTyped now c.command_id o u (Recorded-IsTyped c r) (Written-AllTyped c w h)
  Written-AllTyped c (reporting {u} now w) h =
      mark_reported-AllTyped now c.command_id u (Written-AllTyped c w h)

  accept-AllTyped :
      (command : ExecuteCommand) (a : Agent W)
      → AllTyped a.journal
      → AllTyped (accept_command env (on_execute_command env) command a).1.journal
  unfolding accept_command on_execute_command send
  accept-AllTyped command a h =
      execute-kept env (report_result env) (handlers env) command.command_id AllTyped OutcomeIsTyped
        (record {
          accepting = λ now generation operation.
              record_accepted-AllTyped now command.command_id operation generation;
          running = λ now. record_running-AllTyped now command.command_id;
          finishing = λ now. record_result-AllTyped now command.command_id;
          reporting = λ generation o b.
              report-kept env command.command_id generation o b AllTyped
                (λ now. mark_reported-AllTyped now command.command_id);
        })
        command
        (record {
          replied = λ handler w reply g r. Recorded-IsTyped command (replied handler w reply g r);
          failing = λ code message. failure;
        })
        _ (record_accepted-AllTyped _ command.command_id _ _ a.journal h)

  received-AllTyped :
      (m : CloudToDevice) (a : Agent W)
      → AllTyped a.journal
      → AllTyped (handle_inbound env (on_execute_command env) m a).1.journal
  received-AllTyped m a h =
      handle_inbound-kept env (on_execute_command env) AllTyped m a mark_reported-AllTyped
        (λ command new. accept-AllTyped command a h) h

  Step-AllTyped : {a b : Agent W} → Step env a b → AllTyped a.journal → AllTyped b.journal
  Step-AllTyped (opened s) h = rw s (unfold open_stream in h)
  Step-AllTyped (resent s) h = rw s (unfold resend in h)
  Step-AllTyped {a} (received m s) h = rw s (received-AllTyped m a h)
  Step-AllTyped (taken m q e s) h = rw s h
  Step-AllTyped (beaten s) h = rw s (unfold send_heartbeat send in h)
  Step-AllTyped (queued m s) h = rw s (unfold send in h)
  Step-AllTyped (waited w s) h = rw s h
  Step-AllTyped (died w s) h = rw s h
  Step-AllTyped (died_executing command t w new written s) h =
      rw s (Written-AllTyped command written h)

  pub Reach-AllTyped : {a b : Agent W} → Reach env a b → AllTyped a.journal → AllTyped b.journal
  Reach-AllTyped here h = h
  Reach-AllTyped (next r s) h = Step-AllTyped s (Reach-AllTyped r h)
