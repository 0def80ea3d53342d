-- ===== src/State/Journal.antt =====
-- state/command_journal.py. The SQLite table is the list of its rows, oldest first; a call of a
-- method is one of its SQL statements. A time is a number, for ISO texts of UTC times are ordered
-- as the times are.
pub mod Rows
pub mod Unique
pub mod Members
pub mod Outbox
pub mod Refines
pub mod Schema
pub mod Progress
use browseterm_device_agent.Prelude.{
  ℕ, String, Bool, true, false, not, ◌&&◌, ◌||◌, Option, none, some, List, [], ◌∷◌, ◌++◌, leb, ◌==◌,
  if◌then◌else◌,
}
use browseterm_device_agent.Json.{Json, Payload}

pub data CommandStatus : Type 0 where
  accepted running succeeded failed : CommandStatus

-- `result_json` holds the value whose JSON text the row has.
pub record JournalEntry : Type 0 where
  pub command_id : String
  pub operation : String
  pub status : CommandStatus
  pub placement_generation : ℕ
  pub result_json : Option Json
  pub error_code : Option String
  pub error_message : Option Payload
  pub reported_to_cloud : Bool
  pub created_at : ℕ
  pub updated_at : ℕ

abbrev pub Journal : Type 0
Journal = List JournalEntry

-- `status IN ('succeeded', 'failed')`
abbrev pub is_terminal : CommandStatus → Bool
is_terminal succeeded = true
is_terminal failed = true
is_terminal _ = false

-- `SELECT * ... WHERE command_id = ?`, and `fetchone`
unfoldable pub get : String → Journal → Option JournalEntry
get id [] = none
get id (e ∷ t) = if e.command_id == id then some e else get id t

abbrev is_some : Option JournalEntry → Bool
is_some none = false
is_some (some e) = true

unfoldable pub has_seen : String → Journal → Bool
has_seen id t = is_some (get id t)

unfoldable pub has_terminal_result : String → Journal → Bool
has_terminal_result id [] = false
has_terminal_result id (e ∷ t) =
    (e.command_id == id && is_terminal e.status) || has_terminal_result id t

-- `UPDATE command_journal SET ... WHERE command_id = ?`
unfoldable pub update : String → (JournalEntry → JournalEntry) → Journal → Journal
update id f [] = []
update id f (e ∷ t) = (if e.command_id == id then f e else e) ∷ update id f t

abbrev pub fresh_entry : (now : ℕ) (id operation : String) (generation : ℕ) → JournalEntry
fresh_entry now id operation generation = record {
  command_id = id;
  operation = operation;
  status = accepted;
  placement_generation = generation;
  result_json = none;
  error_code = none;
  error_message = none;
  reported_to_cloud = false;
  created_at = now;
  updated_at = now;
}

-- `INSERT OR IGNORE`
unfoldable pub record_accepted :
    (now : ℕ) (id operation : String) (generation : ℕ) → Journal → Journal
unfolding has_seen
record_accepted now id operation generation t =
    if has_seen id t then t else t ++ fresh_entry now id operation generation ∷ []

-- `_update_status`
unfoldable pub update_status : (now : ℕ) (id : String) → CommandStatus → Journal → Journal
update_status now id status = update id (λ e. record e { status = status; updated_at = now })

unfoldable pub record_running : (now : ℕ) (id : String) → Journal → Journal
unfolding update_status
record_running now id = update_status now id running

-- The columns that `record_result` sets.
pub record Outcome : Type 0 where
  pub status : CommandStatus
  pub result : Option Json
  pub error_code : Option String
  pub error_message : Option Payload

abbrev pub settle : ℕ → Outcome → JournalEntry → JournalEntry
settle now o e = record e {
  status = o.status;
  result_json = o.result;
  error_code = o.error_code;
  error_message = o.error_message;
  reported_to_cloud = false;
  updated_at = now;
}

unfoldable pub record_result : (now : ℕ) (id : String) → Outcome → Journal → Journal
record_result now id o = update id (settle now o)

abbrev pub report : ℕ → JournalEntry → JournalEntry
report now e = record e { reported_to_cloud = true; updated_at = now }

unfoldable pub mark_reported : (now : ℕ) (id : String) → Journal → Journal
mark_reported now id = update id (report now)

abbrev pub is_unreported : JournalEntry → Bool
is_unreported e = not e.reported_to_cloud && is_terminal e.status

-- `ORDER BY created_at ASC`; rows of one time stay in the order of the table.
unfoldable pub insert_by_time : JournalEntry → Journal → Journal
insert_by_time e [] = e ∷ []
insert_by_time e (x ∷ t) =
    if leb e.created_at x.created_at then e ∷ x ∷ t else x ∷ insert_by_time e t

unfoldable pub order_by_time : Journal → Journal
unfolding insert_by_time
order_by_time [] = []
order_by_time (e ∷ t) = insert_by_time e (order_by_time t)

unfoldable pub select_unreported : Journal → Journal
select_unreported [] = []
select_unreported (e ∷ t) =
    let rest = select_unreported t in if is_unreported e then e ∷ rest else rest

unfoldable pub unreported_terminal_entries : Journal → Journal
unfolding order_by_time select_unreported
unreported_terminal_entries t = order_by_time (select_unreported t)
