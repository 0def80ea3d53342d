-- ===== src/State/Journal/Outbox.antt =====
-- `unreported_terminal_entries` of state/command_journal.py: what is resent after a reconnect.
use mathlib.Core.List.Perm
use mathlib.Core.List.{Perm}
use browseterm_device_agent.Prelude.{
  ℕ, String, ◌≡◌, refl, true, Option, none, some, [], ◌∷◌, ◌≤◌, All, arith, ◌==◌, eq_iff,
  if◌then◌else◌,
}
use browseterm_device_agent.State.Journal.Members.{insert_by_time-All}
use browseterm_device_agent.State.Journal.{
  Journal, JournalEntry, Outcome, accepted, running, succeeded, failed, get, is_terminal,
  is_unreported, insert_by_time, order_by_time, select_unreported, unreported_terminal_entries,
  record_result, mark_reported, settle,
}
use browseterm_device_agent.State.Journal.Rows.{get-record_result, get-mark_reported}
use browseterm_device_agent.State.Journal.Unique.{
  IsUnique, record_result-IsUnique, mark_reported-IsUnique,
}

get-insert_by_time :
    (id : String) (e : JournalEntry) (t : Journal)
    → get e.command_id t ≡ none
    → get id (insert_by_time e t) ≡ (if e.command_id == id then some e else get id t)
unfolding get insert_by_time
get-insert_by_time id e [] new = refl
get-insert_by_time id e (x ∷ t) new = ground (
  arith,
  get-insert_by_time id e t,
  eq_iff e.command_id id,
  eq_iff x.command_id id,
  eq_iff x.command_id e.command_id,
)

get-order_by_time : (id : String) (t : Journal) → IsUnique t → get id (order_by_time t) ≡ get id t
unfolding get order_by_time
get-order_by_time id [] u = refl
get-order_by_time id (e ∷ t) u = ground (
  arith,
  get-insert_by_time id e (order_by_time t),
  get-order_by_time e.command_id t u.1,
  get-order_by_time id t u.1,
)

-- The row, if it is to be resent: its command has succeeded or failed, and was not reported.
abbrev pub keep_unreported : Option JournalEntry → Option JournalEntry
keep_unreported none = none
keep_unreported (some e) =
    let kept = (if e.reported_to_cloud then none else some e) in
    elim e.status [ accepted ↦ none | running ↦ none | succeeded ↦ kept | failed ↦ kept ]

get-select_unreported :
    (id : String) (t : Journal)
    → IsUnique t
    → get id (select_unreported t) ≡ keep_unreported (get id t)
unfolding get select_unreported
get-select_unreported id [] u = refl
get-select_unreported id (e ∷ t) u =
    ground (arith, get-select_unreported id t u.1, eq_iff e.command_id id)

select_unreported-IsUnique : (t : Journal) → IsUnique t → IsUnique (select_unreported t)
unfolding select_unreported
select_unreported-IsUnique [] u = tt
select_unreported-IsUnique (e ∷ t) u =
    ground (arith, select_unreported-IsUnique t u.1, get-select_unreported e.command_id t u.1)

pub get-unreported :
    (id : String) (t : Journal)
    → IsUnique t
    → get id (unreported_terminal_entries t) ≡ keep_unreported (get id t)
unfolding unreported_terminal_entries
get-unreported id t u = ground (
  arith,
  get-order_by_time id (select_unreported t) (select_unreported-IsUnique t u),
  get-select_unreported id t u,
)

pub get-unreported-waiting :
    (id : String) (t : Journal) {e : JournalEntry}
    → IsUnique t
    → get id t ≡ some e
    → is_unreported e ≡ true
    → get id (unreported_terminal_entries t) ≡ some e
get-unreported-waiting id t u h waits = ground (arith, get-unreported id t u)

abbrev pub IsOrdered : Journal → Type 0
IsOrdered [] = Unit
IsOrdered (e ∷ t) = All (λ (x : JournalEntry). e.created_at ≤ x.created_at) t × IsOrdered t

All-le_trans :
    (m n : ℕ) (t : Journal)
    → m ≤ n
    → All (λ (x : JournalEntry). n ≤ x.created_at) t
    → All (λ (x : JournalEntry). m ≤ x.created_at) t
All-le_trans m n [] h a = tt
All-le_trans m n (x ∷ t) h a = (omega arith, All-le_trans m n t h a.1)

insert_by_time-IsOrdered :
    (e : JournalEntry) (t : Journal) → IsOrdered t → IsOrdered (insert_by_time e t)
unfolding insert_by_time
insert_by_time-IsOrdered e [] o = (tt, tt)
insert_by_time-IsOrdered e (x ∷ t) o = ground (
  arith,
  insert_by_time-IsOrdered e t o.1,
  insert_by_time-All (λ (y : JournalEntry). x.created_at ≤ y.created_at) e t,
  All-le_trans e.created_at x.created_at t,
)

order_by_time-IsOrdered : (t : Journal) → IsOrdered (order_by_time t)
unfolding order_by_time
order_by_time-IsOrdered [] = tt
order_by_time-IsOrdered (e ∷ t) =
    insert_by_time-IsOrdered e (order_by_time t) (order_by_time-IsOrdered t)

insert_by_time-perm : (e : JournalEntry) (t : Journal) → Perm (insert_by_time e t) (e ∷ t)
unfolding insert_by_time
insert_by_time-perm e [] = Perm.refl _
insert_by_time-perm e (x ∷ t) =
    let later = Perm.trans (Perm.cons x (insert_by_time-perm e t)) (Perm.swap e x t) in
    ground (arith, later, Perm.refl (e ∷ x ∷ t))

order_by_time-perm : (t : Journal) → Perm (order_by_time t) t
unfolding order_by_time
order_by_time-perm [] = Perm.refl _
order_by_time-perm (e ∷ t) =
    Perm.trans (insert_by_time-perm e (order_by_time t)) (Perm.cons e (order_by_time-perm t))

-- The list that is resent is in the order of acceptance, oldest first, and holds each selected
-- row as often as the table does.
pub unreported-IsOrdered :
    (t : Journal)
    → IsOrdered (unreported_terminal_entries t)
      × Perm (unreported_terminal_entries t) (select_unreported t)
unfolding unreported_terminal_entries
unreported-IsOrdered t =
    (order_by_time-IsOrdered (select_unreported t), order_by_time-perm (select_unreported t))

-- On a table with one row at most for each command: after a terminal outcome is recorded for a
-- command that has a row, the list that is resent holds that row with the outcome and with its
-- own generation.
unreported-record_result :
    (now : ℕ) (id : String) (o : Outcome) (t : Journal) {e : JournalEntry}
    → IsUnique t
    → get id t ≡ some e
    → is_terminal o.status ≡ true
    → get id (unreported_terminal_entries (record_result now id o t)) ≡ some (settle now o e)
unreported-record_result now id o t u h terminal = ground (
  arith,
  get-unreported id (record_result now id o t) (record_result-IsUnique now id o t u),
  get-record_result now id id o t,
  eq_iff id id,
)

-- On a table with one row at most for each command, marking a command as reported takes it off
-- the list that is resent, and leaves every other command there as it was.
pub unreported-mark_reported :
    (now : ℕ) (id other : String) (t : Journal)
    → IsUnique t
    → get other (unreported_terminal_entries (mark_reported now id t))
      ≡ (if id == other then none else get other (unreported_terminal_entries t))
unreported-mark_reported now id other t u = ground (
  arith,
  get-unreported other t u,
  get-unreported other (mark_reported now id t) (mark_reported-IsUnique now id t u),
  get-mark_reported now id other t,
  eq_iff id other,
)
