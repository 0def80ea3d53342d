-- ===== src/Main/Ends.antt =====
-- A message that is read is dealt with: every handler that main.py registers comes to an end, and so
-- does the execution of a command.
use browseterm_device_agent.Prelude.{
  ℕ, String, ◌≡◌, ◌≢◌, true, some, arith, inl, inr, Option-cases, Bool-cases,
}
use browseterm_device_agent.Effects.{ok, err, stuck, Result-cases}
use browseterm_device_agent.Effects.Ends.{HasEnd}
use browseterm_device_agent.State.Journal.{Outcome, has_terminal_result}
use browseterm_device_agent.Clients.Retry.Effect.{call_with_retry-ends}
use browseterm_device_agent.Clients.Cloud.Calls.{
  report_policy, report_request, report_command_result,
}
use browseterm_device_agent.Commands.Env.{
  Operation, create, delete, hibernate, resume, save, reconcile, other_operation, ExecuteCommand,
  Env, Handler,
}
use browseterm_device_agent.Commands.Ends.{Live, create-HasEnd, resume-HasEnd, delete-HasEnd}
use browseterm_device_agent.Commands.Ends.Saving.{save-HasEnd, hibernate-HasEnd}
use browseterm_device_agent.Commands.Executor.{register, attempt, finish, start}
use browseterm_device_agent.Commands.Executor.Rules.{
  attempt-ok, attempt-err, execute-ok, execute-err, execute-none, recover-finish,
}
use browseterm_device_agent.Control.Connection.{execute_command, accept_command, handle_inbound}
use browseterm_device_agent.Control.Connection.Inbound.{
  handle_inbound-duplicate, handle_inbound-new,
}
use browseterm_device_agent.Main.{report_result, handlers, on_execute_command}
use browseterm_device_agent.State.Journal.Unique.{IsUnique}
use browseterm_device_agent.Main.Session.{Reach}
use browseterm_device_agent.Main.Delivery.{delivery-terminal, delivery_once}
use browseterm_device_agent.Agent.{Agent, send}

module _ {W : Type 0} (env : Env W) (live : Live env) where
  handlers-HasEnd :
      (operation : Operation) (handler : Handler W)
      → handlers env operation ≡ some handler
      → (command : ExecuteCommand) (w : W) → (handler command w).0 ≢ err stuck
  unfolding handlers register
  handlers-HasEnd create handler h command w = ground (arith, create-HasEnd env live command w)
  handlers-HasEnd delete handler h command w = ground (arith, delete-HasEnd env live command w)
  handlers-HasEnd hibernate handler h command w =
      ground (arith, hibernate-HasEnd env live command w)
  handlers-HasEnd resume handler h command w = ground (arith, resume-HasEnd env live command w)
  handlers-HasEnd save handler h command w = ground (arith, save-HasEnd env live command w)
  handlers-HasEnd reconcile handler h command w = ground arith
  handlers-HasEnd (other_operation n) handler h command w = ground arith

  report_command_result-HasEnd :
      (id : String) (o : Outcome) (generation : ℕ)
      → HasEnd (report_command_result env.cloud id o generation)
  unfolding report_command_result
  report_command_result-HasEnd id o generation w = ground (
    arith,
    call_with_retry-ends (report_policy env.cloud)
        (env.cloud.api.send (report_request env.cloud id o generation)) (live.cloud.answers _) w,
  )

  report_result-HasEnd :
      (id : String) (generation : ℕ) (o : Outcome) → HasEnd (report_result env id generation o)
  unfolding report_result
  report_result-HasEnd id generation o a =
      ground (arith, report_command_result-HasEnd id o generation a.world)

  finish-HasEnd :
      (id : String) (generation : ℕ) (o : Outcome)
      → HasEnd (finish env (report_result env) id generation o)
  unfolding finish
  finish-HasEnd id generation o a = report_result-HasEnd id generation o _

  attempt-HasEnd :
      (id : String) (command : ExecuteCommand) (handler : Handler W)
      → handlers env command.operation ≡ some handler
      → HasEnd (attempt env (report_result env) id command handler)
  attempt-HasEnd id command handler registered a = elim (Result-cases (handler command a.world).0) [
    | inl (reply, e) ↦
        rw (attempt-ok env (report_result env) (handlers env) id command handler a reply e)
          (finish-HasEnd id command.placement_generation _ _)
    | inr (x, e) ↦
        rw (attempt-err env (report_result env) (handlers env) id command handler a x e)
          (λ s. handlers-HasEnd command.operation handler registered command a.world (cc))
  ]

  pub execute-HasEnd :
      (id : String) (command : ExecuteCommand) → HasEnd (on_execute_command env id command)
  unfolding on_execute_command
  execute-HasEnd id command a = elim (Option-cases (handlers env command.operation)) [
    | inl absent ↦
        rw (execute-none env (report_result env) (handlers env) id command a absent)
          (finish-HasEnd id command.placement_generation _ a)
    | inr (handler, registered) ↦
        let begun = start env id command a in
        elim (Result-cases (attempt env (report_result env) id command handler begun).0) [
          | inl (done, e) ↦
              rw
                (
                  execute-ok env (report_result env) (handlers env) id command a handler registered
                      e,
                  e,
                )
                (λ s. cc)
          | inr (x, e) ↦
              rw
                (
                  execute-err env (report_result env) (handlers env) id command a handler x
                      registered e,
                  recover-finish env (report_result env) (handlers env) id command x
                      (attempt env (report_result env) id command handler begun).1
                      (λ same. attempt-HasEnd id command handler registered begun (cc)),
                )
                (finish-HasEnd id command.placement_generation _ _)
        ]
  ]

  accepted-HasEnd :
      (command : ExecuteCommand) → HasEnd (accept_command env (on_execute_command env) command)
  unfolding accept_command send
  accepted-HasEnd command a = execute-HasEnd command.command_id command _

  received-HasEnd :
      (command : ExecuteCommand)
      → HasEnd (handle_inbound env (on_execute_command env) (execute_command command))
  received-HasEnd command a = elim (Bool-cases (has_terminal_result command.command_id a.journal)) [
    | inl old ↦ rw (handle_inbound-duplicate env (on_execute_command env) command a old) (λ s. cc)
    | inr new ↦
        rw (handle_inbound-new env (on_execute_command env) command a new)
          (accepted-HasEnd command a)
  ]

  -- In a live world a delivered command has a terminal result in the journal when the next
  -- message is read, whatever its operation, its configuration and the answers are, and also
  -- where a handler or the report raises.
  pub delivered_command-terminal :
      (command : ExecuteCommand) (a : Agent W)
      → has_terminal_result command.command_id
          (handle_inbound env (on_execute_command env) (execute_command command) a).1.journal
        ≡ true
  delivered_command-terminal command a = delivery-terminal env command a (received-HasEnd command a)

  -- In a live world and on a journal with one row at most for each command: after a command has
  -- been delivered, every later delivery with its id returns and changes nothing at all, whatever
  -- messages, reconnects and crashes come between.
  pub delivered_once :
      (command again : ExecuteCommand) (a : Agent W) {c : Agent W}
      → IsUnique a.journal
      → Reach env (handle_inbound env (on_execute_command env) (execute_command command) a).1 c
      → again.command_id ≡ command.command_id
      → handle_inbound env (on_execute_command env) (execute_command again) c ≡ (ok tt, c)
  delivered_once command again a u r same =
      delivery_once env command again a u (received-HasEnd command a) r same
