-- ===== src/Control/Connection/Inbound.antt =====
-- What `_handle_inbound` of control/grpc_client.py does to the journal.
use browseterm_device_agent.Prelude.{
  ℕ, String, ◌≡◌, refl, Bool, true, false, ◌||◌, List, [], ◌∷◌, arith, ◌==◌, inl, inr, Bool-cases,
  if◌then◌else◌,
}
use browseterm_device_agent.Effects.{Action, ok}
use browseterm_device_agent.State.Journal.{Journal, get, has_terminal_result, mark_reported, report}
use browseterm_device_agent.State.Journal.Rows.{map_entry, get-mark_reported}
use browseterm_device_agent.Commands.Env.{ExecuteCommand, Env}
use browseterm_device_agent.Control.Connection.{
  CloudToDevice, hello_accepted, execute_command, ping, server_draining, not_handled, mark_all,
  accept_command, handle_inbound,
}
use browseterm_device_agent.Agent.{Agent}

abbrev pub has_id : String → List String → Bool
has_id id [] = false
has_id id (i ∷ is) = i == id || has_id id is

-- Marking a list of commands marks exactly the rows of those commands as reported, and leaves
-- every other row as it was.
pub get-mark_all :
    (now : ℕ) (ids : List String) (other : String) (t : Journal)
    → get other (mark_all now ids t)
      ≡ (if has_id other ids then map_entry (report now) (get other t) else get other t)
unfolding mark_all
get-mark_all now [] other t = refl
get-mark_all now (i ∷ is) other t =
    ground
      (arith, get-mark_all now is other (mark_reported now i t), get-mark_reported now i other t)

mark_all-kept :
    (P : Journal → Type 0) (now : ℕ) (ids : List String) (t : Journal)
    → ((id : String) (u : Journal) → P u → P (mark_reported now id u))
    → P t
    → P (mark_all now ids t)
unfolding mark_all
mark_all-kept P now [] t marked h = h
mark_all-kept P now (i ∷ is) t marked h =
    mark_all-kept P now is (mark_reported now i t) marked (marked i t h)

module _ {W : Type 0} (env : Env W)
    (on_execute_command : String → ExecuteCommand → Action (Agent W) (Unit {0})) where
  -- A command that has its terminal result is ignored: nothing is run, written or sent.
  pub handle_inbound-duplicate :
      (command : ExecuteCommand) (a : Agent W)
      → has_terminal_result command.command_id a.journal ≡ true
      → handle_inbound env on_execute_command (execute_command command) a ≡ (ok tt, a)
  unfolding handle_inbound
  handle_inbound-duplicate command a h = rw h

  pub handle_inbound-new :
      (command : ExecuteCommand) (a : Agent W)
      → has_terminal_result command.command_id a.journal ≡ false
      → handle_inbound env on_execute_command (execute_command command) a
        ≡ accept_command env on_execute_command command a
  unfolding handle_inbound
  handle_inbound-new command a h = rw h

  -- What every write of an unfinished command and every mark keeps, a message keeps.
  pub handle_inbound-kept :
      (P : Journal → Type 0) (m : CloudToDevice) (a : Agent W)
      → ((now : ℕ) (id : String) (t : Journal) → P t → P (mark_reported now id t))
      → ((command : ExecuteCommand)
          → has_terminal_result command.command_id a.journal ≡ false
          → P (accept_command env on_execute_command command a).1.journal)
      → P a.journal
      → P (handle_inbound env on_execute_command m a).1.journal
  handle_inbound-kept P (hello_accepted g r) a marked run h =
      unfold handle_inbound in
      mark_all-kept P (env.now a.world) a.pending_resend_ids a.journal (marked _) h
  handle_inbound-kept P (execute_command command) a marked run h =
      elim (Bool-cases (has_terminal_result command.command_id a.journal)) [
        | inl old ↦ rw (handle_inbound-duplicate command a old) h
        | inr new ↦ rw (handle_inbound-new command a new) (run command new)
      ]
  handle_inbound-kept P (ping n) a marked run h = unfold handle_inbound in h
  handle_inbound-kept P (server_draining n) a marked run h = unfold handle_inbound in h
  handle_inbound-kept P not_handled a marked run h = unfold handle_inbound in h
