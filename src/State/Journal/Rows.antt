-- ===== src/State/Journal/Rows.antt =====
-- What the statements of state/command_journal.py do to the row of each command.
use browseterm_device_agent.Prelude.{
  ℕ, String, ◌≡◌, refl, Option, none, some, [], ◌∷◌, ◌++◌, arith, ◌==◌, eq_iff, if◌then◌else◌,
}
use browseterm_device_agent.State.Journal.{
  Journal, JournalEntry, Outcome, get, update, fresh_entry, record_accepted, record_running,
  record_result, mark_reported, settle, report, running,
}

abbrev pub map_entry : (JournalEntry → JournalEntry) → Option JournalEntry → Option JournalEntry
map_entry f none = none
map_entry f (some e) = some (f e)

abbrev pub KeepsId : (JournalEntry → JournalEntry) → Type 0
KeepsId f = (e : JournalEntry) → (f e).command_id ≡ e.command_id

-- One row is changed, every other row is as it was.
pub get-update :
    (id other : String) (f : JournalEntry → JournalEntry) (t : Journal)
    → KeepsId f
    → get other (update id f t) ≡ (if id == other then map_entry f (get other t) else get other t)
unfolding get update
get-update id other f [] keeps = ground (arith, eq_iff id other)
get-update id other f (e ∷ t) keeps = ground (
  arith,
  get-update id other f t keeps,
  keeps e,
  eq_iff id other,
  eq_iff e.command_id id,
  eq_iff e.command_id other,
  eq_iff (f e).command_id other,
)

pub get-append :
    (id : String) (t u : Journal)
    → get id (t ++ u) ≡ (elim (get id t) [ none ↦ get id u | some e ↦ some e ])
unfolding get
get-append id [] u = refl
get-append id (e ∷ t) u = ground (arith, get-append id t u)

-- Accepting a command that is known leaves its row whole; a new command gets a fresh row; and no
-- other command's row changes.
pub get-record_accepted :
    (now : ℕ) (id operation other : String) (generation : ℕ) (t : Journal)
    → get other (record_accepted now id operation generation t) ≡ (elim (get other t) [
      | some e ↦ some e
      | none ↦ if id == other then some (fresh_entry now id operation generation) else none
    ])
unfolding record_accepted get
get-record_accepted now id operation other generation t =
    ground
      (arith, get-append other t (fresh_entry now id operation generation ∷ []), eq_iff id other)

pub get-record_running :
    (now : ℕ) (id other : String) (t : Journal)
    → get other (record_running now id t) ≡ (
        if id == other
        then map_entry (λ e. record e { status = running; updated_at = now }) (get other t)
        else get other t)
unfolding record_running
get-record_running now id other t = get-update id other _ t (λ e. refl)

-- A result is written to its own command's row alone, if there is one; the generation, the
-- operation and the time of acceptance stay, and the row is unreported.
pub get-record_result :
    (now : ℕ) (id other : String) (o : Outcome) (t : Journal)
    → get other (record_result now id o t)
      ≡ (if id == other then map_entry (settle now o) (get other t) else get other t)
unfolding record_result
get-record_result now id other o t = get-update id other _ t (λ e. refl)

pub get-mark_reported :
    (now : ℕ) (id other : String) (t : Journal)
    → get other (mark_reported now id t)
      ≡ (if id == other then map_entry (report now) (get other t) else get other t)
unfolding mark_reported
get-mark_reported now id other t = get-update id other _ t (λ e. refl)

-- The row that is found for an id has that id.
pub get-command_id :
    (id : String) (t : Journal) (e : JournalEntry) → get id t ≡ some e → e.command_id ≡ id
unfolding get
get-command_id id [] e h = cc
get-command_id id (x ∷ t) e h = ground (arith, get-command_id id t e, eq_iff x.command_id id)
