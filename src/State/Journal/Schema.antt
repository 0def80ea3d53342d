-- ===== src/State/Journal/Schema.antt =====
-- The file of state/command_journal.py when a process opens it: `_init_schema`, with the column that
-- earlier versions did not have, and `_row_to_entry`.
use browseterm_device_agent.Prelude.{
  ℕ, String, ◌≡◌, refl, not, Bool, true, false, Option, none, some, List, [], ◌∷◌, map, eqb,
  if◌then◌else◌,
}
use browseterm_device_agent.Json.{Json, Payload}
use browseterm_device_agent.State.Journal.{Journal, JournalEntry, CommandStatus, get}
use browseterm_device_agent.State.Journal.Unique.{IsUnique}
use browseterm_device_agent.State.Journal.Refines.{IsAnsweredBy, IsUnique-IsAnsweredBy}

-- The columns of a row but `placement_generation`; SQLite keeps `reported_to_cloud` as a number.
pub record StoredRow : Type 0 where
  pub command_id : String
  pub operation : String
  pub status : CommandStatus
  pub result_json : Option Json
  pub error_code : Option String
  pub error_message : Option Payload
  pub reported_to_cloud : ℕ
  pub created_at : ℕ
  pub updated_at : ℕ

-- The file: without the table, with the table of an earlier version, or with the table as it is now.
pub data Table : Type 0 where
  no_table : Table
  without_generation : List StoredRow → Table
  with_generation : List (StoredRow × ℕ) → Table

-- `CREATE TABLE IF NOT EXISTS`
abbrev pub create_table : Table → Table
create_table no_table = with_generation []
create_table t = t

-- `INTEGER NOT NULL DEFAULT 0`
abbrev pub add_default : StoredRow → StoredRow × ℕ
add_default r = (r, 0)

-- `ALTER TABLE ... ADD COLUMN`; `none` is the OperationalError of a column or table that is there or
-- is missing.
abbrev pub add_column : Table → Option Table
add_column no_table = none
add_column (without_generation rows) = some (with_generation (map add_default rows))
add_column (with_generation rows) = none

-- An OperationalError is passed over.
abbrev pub or_same : Table → Option Table → Table
or_same t none = t
or_same t (some u) = u

unfoldable pub init_schema : Table → Table
init_schema t = or_same (create_table t) (add_column (create_table t))

unfoldable pub row_to_entry : StoredRow × ℕ → JournalEntry
row_to_entry (row, placement_generation) = record {
  command_id = row.command_id;
  operation = row.operation;
  status = row.status;
  placement_generation = placement_generation;
  result_json = row.result_json;
  error_code = row.error_code;
  error_message = row.error_message;
  reported_to_cloud = not (eqb row.reported_to_cloud 0);
  created_at = row.created_at;
  updated_at = row.updated_at;
}

-- What a query can see: a table without the column has no rows for the code, which names it.
abbrev pub entries : Table → Journal
entries (with_generation rows) = map row_to_entry rows
entries t = []

-- The rows that a file holds, whatever version wrote it: an old row has the generation 0.
abbrev pub stored : Table → Journal
stored no_table = []
stored (without_generation rows) = map row_to_entry (map add_default rows)
stored (with_generation rows) = map row_to_entry rows

-- The file that holds these rows, as the process writes it.
abbrev pub stored_row : JournalEntry → StoredRow × ℕ
stored_row e = (
  record {
    command_id = e.command_id;
    operation = e.operation;
    status = e.status;
    result_json = e.result_json;
    error_code = e.error_code;
    error_message = e.error_message;
    reported_to_cloud = if e.reported_to_cloud then 1 else 0;
    created_at = e.created_at;
    updated_at = e.updated_at;
  },
  e.placement_generation,
)

abbrev pub written : Journal → Table
written t = with_generation (map stored_row t)

number-truth : (b : Bool) → not (eqb (if b then 1 else 0) 0) ≡ b
number-truth true = refl
number-truth false = refl

row_to_entry-stored_row : (e : JournalEntry) → row_to_entry (stored_row e) ≡ e
unfolding row_to_entry
row_to_entry-stored_row e = rw (number-truth e.reported_to_cloud) refl

-- A row that is written is read back, with every column.
pub stored-written : (t : Journal) → stored (written t) ≡ t
stored-written [] = refl
stored-written (e ∷ t) = rw (row_to_entry-stored_row e, stored-written t) refl

pub entries-init_schema : (t : Table) → entries (init_schema t) ≡ stored t
unfolding init_schema
entries-init_schema no_table = refl
entries-init_schema (without_generation rows) = refl
entries-init_schema (with_generation rows) = refl

-- Opening a file again changes nothing.
pub init_schema-init_schema : (t : Table) → init_schema (init_schema t) ≡ init_schema t
unfolding init_schema
init_schema-init_schema no_table = refl
init_schema-init_schema (without_generation rows) = refl
init_schema-init_schema (with_generation rows) = refl

-- If a file holds one row at most for each command, then after it is opened, whatever version wrote
-- it, every question to the journal is answered from the rows that it held.
pub init_schema-IsAnsweredBy :
    (t : Table)
    → IsUnique (stored t)
    → IsAnsweredBy (entries (init_schema t)) (λ id. get id (stored t))
init_schema-IsAnsweredBy t u =
    rw (entries-init_schema t)
      (IsUnique-IsAnsweredBy (stored t) (λ id. get id (stored t)) u (λ id. refl))
