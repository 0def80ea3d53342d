-- ===== src/State/Journal/Refines.antt =====
-- What state/command_journal.py promises: a row for each command, and four questions about it. The
-- table and its SQL statements keep that promise.
use browseterm_device_agent.Prelude.{
  ℕ, String, ◌≡◌, refl, ◌∙◌, Bool, true, false, Option, none, some, List, [], ◌∷◌, arith, ◌==◌,
  eq_iff, if◌then◌else◌,
}
use browseterm_device_agent.State.Journal.{
  Journal, JournalEntry, get, has_seen, has_terminal_result, unreported_terminal_entries,
  fresh_entry, settle, report, running,
}
use browseterm_device_agent.State.Journal.Rows.{
  map_entry, get-record_running, get-record_accepted, get-record_result, get-mark_reported,
}
use browseterm_device_agent.State.Journal.Unique.{
  IsUnique, Statement, accept, run, finish, acknowledge, execute, execute_all, execute-IsUnique,
  terminal_row, has_terminal_result-get,
}
use browseterm_device_agent.State.Journal.Outbox.{keep_unreported, get-unreported}

-- The row of each command that is known.
abbrev pub Book : Type 0
Book = String → Option JournalEntry

abbrev pub write : String → Option JournalEntry → Book → Book
write id e b other = if id == other then e else b other

abbrev pub begin : (now : ℕ) → JournalEntry → JournalEntry
begin now e = record e { status = running; updated_at = now }

abbrev pub or_fresh : JournalEntry → Option JournalEntry → Option JournalEntry
or_fresh e none = some e
or_fresh e (some x) = some x

-- A statement is about one command, and what it makes of its row depends on that row alone.
abbrev pub apply : Statement → Book → Book
apply (accept now id operation generation) b =
    write id (or_fresh (fresh_entry now id operation generation) (b id)) b
apply (run now id) b = write id (map_entry (begin now) (b id)) b
apply (finish now id o) b = write id (map_entry (settle now o) (b id)) b
apply (acknowledge now id) b = write id (map_entry (report now) (b id)) b

abbrev pub apply_all : Book → List Statement → Book
apply_all b [] = b
apply_all b (q ∷ qs) = apply_all (apply q b) qs

abbrev pub known : Option JournalEntry → Bool
known none = false
known (some e) = true

-- Every question to the table is answered from the book.
pub record IsAnsweredBy (t : Journal) (b : Book) : Type 0 where
  pub found : (id : String) → get id t ≡ b id
  pub seen : (id : String) → has_seen id t ≡ known (b id)
  pub terminal : (id : String) → has_terminal_result id t ≡ terminal_row (b id)
  pub waiting : (id : String) → get id (unreported_terminal_entries t) ≡ keep_unreported (b id)

get-execute :
    (q : Statement) (t : Journal) (b : Book)
    → ((id : String) → get id t ≡ b id)
    → (id : String) → get id (execute t q) ≡ apply q b id
unfolding execute
get-execute (accept now id operation generation) t b h other =
    ground (
      arith,
      get-record_accepted now id operation other generation t,
      h id,
      h other,
      eq_iff id other,
    )
get-execute (run now id) t b h other =
    ground (arith, get-record_running now id other t, h id, h other, eq_iff id other)
get-execute (finish now id o) t b h other =
    ground (arith, get-record_result now id other o t, h id, h other, eq_iff id other)
get-execute (acknowledge now id) t b h other =
    ground (arith, get-mark_reported now id other t, h id, h other, eq_iff id other)

pub IsUnique-IsAnsweredBy :
    (t : Journal) (b : Book) → IsUnique t → ((id : String) → get id t ≡ b id) → IsAnsweredBy t b
unfolding has_seen
IsUnique-IsAnsweredBy t b u h = record {
  found = h;
  seen = λ id. ground (arith, h id);
  terminal = λ id. has_terminal_result-get id t u ∙ rw (h id) refl;
  waiting = λ id. get-unreported id t u ∙ rw (h id) refl;
}

-- On a table with one row at most for each command: run any sequence of the journal's statements
-- on the table, and on the book of what get finds for each command, where a statement rewrites the
-- row of its own command alone. Then get, has_seen, has_terminal_result and the list that is
-- resent answer from the book.
pub execute_all-refines :
    (qs : List Statement) (t : Journal) (b : Book)
    → IsUnique t
    → ((id : String) → get id t ≡ b id)
    → IsAnsweredBy (execute_all t qs) (apply_all b qs)
unfolding execute_all
execute_all-refines [] t b u h = IsUnique-IsAnsweredBy t b u h
execute_all-refines (q ∷ qs) t b u h =
    execute_all-refines qs (execute t q) (apply q b) (execute-IsUnique q t u) (get-execute q t b h)
