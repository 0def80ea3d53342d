-- ===== src/Main/Delivery.antt =====
-- A delivered command ends with a terminal result in the journal, and later deliveries are ignored.
use browseterm_device_agent.Prelude.{
  ℕ, String, ◌≡◌, ◌≢◌, refl, true, some, arith, inl, inr, sym, ◌∙◌, Option-cases, Bool-cases,
  eq_refl,
}
use browseterm_device_agent.Effects.{ok, err, stuck}
use browseterm_device_agent.State.Journal.{
  Journal, JournalEntry, get, has_terminal_result, is_terminal, record_accepted,
}
use browseterm_device_agent.State.Journal.Rows.{get-command_id, get-record_accepted}
use browseterm_device_agent.State.Journal.Unique.{
  IsUnique, record_accepted-IsUnique, record_running-IsUnique, record_result-IsUnique,
  mark_reported-IsUnique, has_terminal_result-get, has_terminal_result-found,
}
use browseterm_device_agent.Commands.Env.{ExecuteCommand, Env}
use browseterm_device_agent.Commands.Executor.{no_handler}
use browseterm_device_agent.Commands.Executor.Rules.{HasRow, execute-none, finish-Settled}
use browseterm_device_agent.Commands.Executor.Terminal.{execute-terminal}
use browseterm_device_agent.Commands.Executor.Isolation.{execute-IsUnique}
use browseterm_device_agent.Control.Connection.{
  CloudToDevice, execute_command, accept_command, handle_inbound, open_stream, resend,
  send_heartbeat,
}
use browseterm_device_agent.Control.Connection.Inbound.{
  handle_inbound-new, handle_inbound-duplicate, handle_inbound-kept,
}
use browseterm_device_agent.Main.{report_result, handlers, on_execute_command}
use browseterm_device_agent.Main.Report.{report_result-IsReport}
use browseterm_device_agent.Main.Session.{
  Written, nothing, accepting, starting, finishing, reporting, Step, opened, resent, received,
  taken, beaten, queued, waited, died, died_executing, Reach, here, next,
}
use browseterm_device_agent.Main.Once.{Reach-delivery_ignored}
use browseterm_device_agent.Agent.{Agent, send}

accepted-HasRow :
    (now : ℕ) (id operation : String) (generation : ℕ) (t : Journal)
    → HasRow id (record_accepted now id operation generation t)
accepted-HasRow now id operation generation t =
    ground (arith, get-record_accepted now id operation id generation t, eq_refl id)

Written-IsUnique :
    {W : Type 0} (env : Env W) (command : ExecuteCommand) {t u : Journal}
    → Written env command t u
    → IsUnique t
    → IsUnique u
Written-IsUnique env c nothing h = h
Written-IsUnique env c (accepting {u} now generation operation w) h =
    record_accepted-IsUnique now c.command_id operation generation u (Written-IsUnique env c w h)
Written-IsUnique env c (starting {u} now w) h =
    record_running-IsUnique now c.command_id u (Written-IsUnique env c w h)
Written-IsUnique env c (finishing {u} now o r w) h =
    record_result-IsUnique now c.command_id o u (Written-IsUnique env c w h)
Written-IsUnique env c (reporting {u} now w) h =
    mark_reported-IsUnique now c.command_id u (Written-IsUnique env c w h)

module _ {W : Type 0} (env : Env W) where
  executed-terminal :
      (id : String) (command : ExecuteCommand) (a : Agent W)
      → HasRow id a.journal
      → (on_execute_command env id command a).0 ≢ err stuck
      → has_terminal_result id (on_execute_command env id command a).1.journal ≡ true
  unfolding on_execute_command no_handler
  executed-terminal id command a row alive = elim (Option-cases (handlers env command.operation)) [
    | inl absent ↦ rw (execute-none env (report_result env) (handlers env) id command a absent) (
        let s =
          finish-Settled env (report_result env) (handlers env) (report_result-IsReport env) id
            command.placement_generation (no_handler env command) a row in
        has_terminal_result-found id _ s.row s.found (rw s.status refl))
    | inr (handler, registered) ↦
        execute-terminal env (report_result env) (handlers env) (report_result-IsReport env) id
          command a handler registered alive
  ]

  accepted-terminal :
      (command : ExecuteCommand) (a : Agent W)
      → (accept_command env (on_execute_command env) command a).0 ≢ err stuck
      → has_terminal_result command.command_id
          (accept_command env (on_execute_command env) command a).1.journal
        ≡ true
  unfolding accept_command send
  accepted-terminal command a alive =
      executed-terminal command.command_id command _
        (accepted-HasRow _ command.command_id _ _ a.journal) alive

  -- Whatever the command, its handler and the Cloud's answers: unless it hangs, a delivered command
  -- has a terminal result in the journal when the next message is read.
  pub delivery-terminal :
      (command : ExecuteCommand) (a : Agent W)
      → (handle_inbound env (on_execute_command env) (execute_command command) a).0 ≢ err stuck
      → has_terminal_result command.command_id
          (handle_inbound env (on_execute_command env) (execute_command command) a).1.journal
        ≡ true
  delivery-terminal command a alive =
      elim (Bool-cases (has_terminal_result command.command_id a.journal)) [
        | inl old ↦ rw (handle_inbound-duplicate env (on_execute_command env) command a old) old
        | inr new ↦
            let e = handle_inbound-new env (on_execute_command env) command a new in
            rw e (accepted-terminal command a (λ s. alive (rw e s)))
      ]

  accept-IsUnique :
      (command : ExecuteCommand) (a : Agent W)
      → IsUnique a.journal
      → IsUnique (accept_command env (on_execute_command env) command a).1.journal
  unfolding accept_command on_execute_command send
  accept-IsUnique command a u =
      execute-IsUnique env (report_result env) (handlers env) (report_result-IsReport env)
        command.command_id command _ (record_accepted-IsUnique _ command.command_id _ _ a.journal u)

  received-IsUnique :
      (m : CloudToDevice) (a : Agent W)
      → IsUnique a.journal
      → IsUnique (handle_inbound env (on_execute_command env) m a).1.journal
  received-IsUnique m a u =
      handle_inbound-kept env (on_execute_command env) IsUnique m a
        (λ now id. mark_reported-IsUnique now id) (λ command new. accept-IsUnique command a u) u

  Step-IsUnique : {a b : Agent W} → Step env a b → IsUnique a.journal → IsUnique b.journal
  Step-IsUnique (opened s) u = rw s (unfold open_stream in u)
  Step-IsUnique (resent s) u = rw s (unfold resend in u)
  Step-IsUnique {a} (received m s) u = rw s (received-IsUnique m a u)
  Step-IsUnique (taken m q h s) u = rw s u
  Step-IsUnique (beaten s) u = rw s (unfold send_heartbeat send in u)
  Step-IsUnique (queued m s) u = rw s (unfold send in u)
  Step-IsUnique (waited w s) u = rw s u
  Step-IsUnique (died w s) u = rw s u
  Step-IsUnique (died_executing command t w new written s) u =
      rw s (Written-IsUnique env command written u)

  -- If the journal has one row at most for each command, so it has in every state that the agent
  -- can reach, over messages, reconnects and crashes.
  pub Reach-IsUnique : {a b : Agent W} → Reach env a b → IsUnique a.journal → IsUnique b.journal
  Reach-IsUnique here u = u
  Reach-IsUnique (next r s) u = Step-IsUnique s (Reach-IsUnique r u)

  terminal-row :
      (id : String) (t : Journal)
      → IsUnique t
      → has_terminal_result id t ≡ true
      → (e : JournalEntry) × (get id t ≡ some e) × (is_terminal e.status ≡ true)
  terminal-row id t u h = elim (Option-cases (get id t)) [
    | inl absent ↦ cc (has_terminal_result-get id t u)
    | inr (e, found) ↦ (e, found, ground (arith, has_terminal_result-get id t u))
  ]

  -- A command is executed by its first delivery that does not hang, and by no later one, whatever
  -- messages, reconnects and crashes come between.
  pub delivery_once :
      (command again : ExecuteCommand) (a : Agent W) {c : Agent W}
      → IsUnique a.journal
      → (handle_inbound env (on_execute_command env) (execute_command command) a).0 ≢ err stuck
      → Reach env (handle_inbound env (on_execute_command env) (execute_command command) a).1 c
      → again.command_id ≡ command.command_id
      → handle_inbound env (on_execute_command env) (execute_command again) c ≡ (ok tt, c)
  delivery_once command again a u alive r same =
      let t = (handle_inbound env (on_execute_command env) (execute_command command) a).1.journal in
      let (e, found, terminal) =
        terminal-row command.command_id t (received-IsUnique (execute_command command) a u)
          (delivery-terminal command a alive) in
      let named = get-command_id command.command_id t e found in
      Reach-delivery_ignored env e again r (rw named found) terminal (same ∙ sym named)
