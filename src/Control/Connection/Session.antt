-- ===== src/Control/Connection/Session.antt =====
-- The pending ids of control/grpc_client.py: from a resend to the `hello_accepted` that acknowledges
-- it, and over a reconnect between them.
use browseterm_device_agent.Prelude.{
  ℕ, String, ◌≡◌, refl, Bool, true, none, some, List, [], ◌∷◌, arith, eq_refl, if◌then◌else◌, ◌∙◌,
}
use browseterm_device_agent.State.Journal.{Journal, get, mark_reported, unreported_terminal_entries}
use browseterm_device_agent.State.Journal.Unique.{IsUnique, mark_reported-IsUnique}
use browseterm_device_agent.State.Journal.Outbox.{unreported-mark_reported}
use browseterm_device_agent.Commands.Env.{ExecuteCommand, Env}
use browseterm_device_agent.Effects.{Action}
use browseterm_device_agent.Control.Connection.{
  hello_accepted, ids, mark_all, open_stream, resend, handle_inbound,
}
use browseterm_device_agent.Control.Connection.Inbound.{has_id}
use browseterm_device_agent.Agent.{Agent}

-- Whatever is marked in one go is no longer on the list, and everything else still is.
unreported-mark_all :
    (now : ℕ) (is : List String) (id : String) (t : Journal)
    → IsUnique t
    → get id (unreported_terminal_entries (mark_all now is t))
      ≡ (if has_id id is then none else get id (unreported_terminal_entries t))
unfolding mark_all
unreported-mark_all now [] id t u = refl
unreported-mark_all now (i ∷ is) id t u = ground (
  arith,
  unreported-mark_all now is id (mark_reported now i t) (mark_reported-IsUnique now i t u),
  unreported-mark_reported now i id t u,
)

unlisted : (id : String) (t : Journal) → (if has_id id (ids t) then none else get id t) ≡ none
unfolding get
unlisted id [] = refl
unlisted id (e ∷ t) = ground (arith, unlisted id t)

all_absent : (t : Journal) → ((id : String) → get id t ≡ none) → t ≡ []
unfolding get
all_absent [] h = refl
all_absent (e ∷ t) h = absurd (ground (arith, h e.command_id, eq_refl e.command_id))

module _ {W : Type 0} (env : Env W)
    (on_execute_command : String → ExecuteCommand → Action (Agent W) (Unit {0})) (generation : ℕ)
    (required : Bool) (a : Agent W) (u : IsUnique a.journal) where
  -- On a journal with one row at most for each command: after the unreported results have been
  -- taken up for resending and a hello_accepted is handled, nothing is left to resend.
  pub resend-acknowledged :
      unreported_terminal_entries
        (handle_inbound env on_execute_command
          (hello_accepted generation required)
          (resend a).1).1.journal
      ≡ []
  unfolding handle_inbound resend
  resend-acknowledged = all_absent _ λ id.
      let listed = unreported_terminal_entries a.journal in
      unreported-mark_all (env.now a.world) (ids listed) id a.journal u ∙ unlisted id listed

  -- On a journal with one row at most for each command: an id that is pending when a new
  -- connection is opened is no longer to be resent after a hello_accepted, though the new
  -- connection has resent nothing.
  pub acknowledged-stale :
      (id : String)
      → has_id id a.pending_resend_ids ≡ true
      → let b =
          (handle_inbound env on_execute_command
            (hello_accepted generation required)
            (open_stream a)).1 in
        (b.outbound ≡ some []) × (get id (unreported_terminal_entries b.journal) ≡ none)
  unfolding handle_inbound open_stream
  acknowledged-stale id pending = (
    refl,
    rw (unreported-mark_all (env.now a.world) a.pending_resend_ids id a.journal u, pending) refl,
  )
