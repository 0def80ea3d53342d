-- ===== src/State/Journal/Unique.antt =====
-- `command_id` is the primary key of the table of state/command_journal.py: each command has at
-- most one row, whatever statements are run.
use browseterm_device_agent.Prelude.{
  ℕ, String, ◌≡◌, refl, Bool, true, false, Option, none, some, List, [], ◌∷◌, ◌++◌, arith, eq_iff,
}
use browseterm_device_agent.State.Journal.{
  Journal, JournalEntry, Outcome, get, has_terminal_result, is_terminal, update, fresh_entry,
  record_accepted, record_running, record_result, mark_reported,
}
use browseterm_device_agent.State.Journal.Rows.{KeepsId, get-update, get-append}

abbrev pub IsUnique : Journal → Type 0
IsUnique [] = Unit
IsUnique (e ∷ t) = (get e.command_id t ≡ none) × IsUnique t

pub update-IsUnique :
    (id : String) (f : JournalEntry → JournalEntry) (t : Journal)
    → KeepsId f
    → IsUnique t
    → IsUnique (update id f t)
unfolding update
update-IsUnique id f [] keeps u = tt
update-IsUnique id f (e ∷ t) keeps u = ground (
  arith,
  keeps e,
  get-update id e.command_id f t keeps,
  get-update id (f e).command_id f t keeps,
  update-IsUnique id f t keeps u.1,
)

append-IsUnique :
    (t : Journal) (e : JournalEntry)
    → get e.command_id t ≡ none
    → IsUnique t
    → IsUnique (t ++ e ∷ [])
unfolding get
append-IsUnique [] e new u = (refl, tt)
append-IsUnique (x ∷ t) e new u = ground (
  arith,
  get-append x.command_id t (e ∷ []),
  append-IsUnique t e,
  eq_iff x.command_id e.command_id,
  eq_iff e.command_id x.command_id,
)

pub record_accepted-IsUnique :
    (now : ℕ) (id operation : String) (generation : ℕ) (t : Journal)
    → IsUnique t
    → IsUnique (record_accepted now id operation generation t)
unfolding record_accepted
record_accepted-IsUnique now id operation generation t u =
    ground (arith, append-IsUnique t (fresh_entry now id operation generation))

pub record_running-IsUnique :
    (now : ℕ) (id : String) (t : Journal) → IsUnique t → IsUnique (record_running now id t)
unfolding record_running
record_running-IsUnique now id t u = update-IsUnique id _ t (λ e. refl) u

pub record_result-IsUnique :
    (now : ℕ) (id : String) (o : Outcome) (t : Journal)
    → IsUnique t
    → IsUnique (record_result now id o t)
unfolding record_result
record_result-IsUnique now id o t u = update-IsUnique id _ t (λ e. refl) u

pub mark_reported-IsUnique :
    (now : ℕ) (id : String) (t : Journal) → IsUnique t → IsUnique (mark_reported now id t)
unfolding mark_reported
mark_reported-IsUnique now id t u = update-IsUnique id _ t (λ e. refl) u

abbrev pub terminal_row : Option JournalEntry → Bool
terminal_row none = false
terminal_row (some e) = is_terminal e.status

not-terminal_of_absent :
    (id : String) (t : Journal) → get id t ≡ none → has_terminal_result id t ≡ false
unfolding get has_terminal_result
not-terminal_of_absent id [] h = refl
not-terminal_of_absent id (e ∷ t) h = ground (arith, not-terminal_of_absent id t)

-- On a table with one row at most for each command, the query for a terminal row answers by the
-- status of the row that get finds.
pub has_terminal_result-get :
    (id : String) (t : Journal) → IsUnique t → has_terminal_result id t ≡ terminal_row (get id t)
unfolding get has_terminal_result
has_terminal_result-get id [] u = refl
has_terminal_result-get id (e ∷ t) u =
    ground
      (arith, has_terminal_result-get id t u.1, not-terminal_of_absent id t, eq_iff e.command_id id)

-- A terminal row of the command is found by that query, also where rows were not unique.
pub has_terminal_result-found :
    (id : String) (t : Journal) (e : JournalEntry)
    → get id t ≡ some e
    → is_terminal e.status ≡ true
    → has_terminal_result id t ≡ true
unfolding get has_terminal_result
has_terminal_result-found id [] e h terminal = cc
has_terminal_result-found id (x ∷ t) e h terminal = ground (arith, has_terminal_result-found id t e)

-- The statements that write to the table.
pub data Statement : Type 0 where
  accept : (now : ℕ) (id operation : String) (generation : ℕ) → Statement
  run : (now : ℕ) (id : String) → Statement
  finish : (now : ℕ) (id : String) → Outcome → Statement
  acknowledge : (now : ℕ) (id : String) → Statement

unfoldable pub execute : Journal → Statement → Journal
execute t (accept now id operation generation) = record_accepted now id operation generation t
execute t (run now id) = record_running now id t
execute t (finish now id o) = record_result now id o t
execute t (acknowledge now id) = mark_reported now id t

unfoldable pub execute_all : Journal → List Statement → Journal
unfolding execute
execute_all t [] = t
execute_all t (q ∷ qs) = execute_all (execute t q) qs

pub execute-IsUnique : (q : Statement) (t : Journal) → IsUnique t → IsUnique (execute t q)
unfolding execute
execute-IsUnique (accept now id operation generation) t =
    record_accepted-IsUnique now id operation generation t
execute-IsUnique (run now id) t = record_running-IsUnique now id t
execute-IsUnique (finish now id o) t = record_result-IsUnique now id o t
execute-IsUnique (acknowledge now id) t = mark_reported-IsUnique now id t

-- If the table has one row at most for each command, so it has after any sequence of the
-- journal's statements.
execute_all-IsUnique :
    (qs : List Statement) (t : Journal) → IsUnique t → IsUnique (execute_all t qs)
unfolding execute_all
execute_all-IsUnique [] t u = u
execute_all-IsUnique (q ∷ qs) t u = execute_all-IsUnique qs (execute t q) (execute-IsUnique q t u)
