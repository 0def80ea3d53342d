-- ===== src/State/Journal/Progress.antt =====
-- A finished command stays finished: which statements of state/command_journal.py keep its result.
use browseterm_device_agent.Prelude.{
  ℕ, String, ◌≡◌, ◌≢◌, some, arith, ◌==◌, eq_iff, Bool-cases, inl, inr,
}
use browseterm_device_agent.State.Journal.{
  Journal, JournalEntry, Outcome, get, record_accepted, record_running, record_result,
  mark_reported, report,
}
use browseterm_device_agent.State.Journal.Rows.{
  get-record_accepted, get-record_running, get-record_result, get-mark_reported,
}

-- What of a row never changes once the command is finished. The time of the last write and the
-- mark of having been reported may change.
pub record SameResult (a b : JournalEntry) : Type 0 where
  pub same_id : b.command_id ≡ a.command_id
  pub same_operation : b.operation ≡ a.operation
  pub same_status : b.status ≡ a.status
  pub same_generation : b.placement_generation ≡ a.placement_generation
  pub same_result : b.result_json ≡ a.result_json
  pub same_error_code : b.error_code ≡ a.error_code
  pub same_error_message : b.error_message ≡ a.error_message
  pub same_created_at : b.created_at ≡ a.created_at

-- The command has a row with the result of `a`.
pub record Keeps (a : JournalEntry) (t : Journal) : Type 0 where
  pub row : JournalEntry
  pub found : get a.command_id t ≡ some row
  pub same : SameResult a row

pub Keeps-refl : (e : JournalEntry) (t : Journal) → get e.command_id t ≡ some e → Keeps e t
Keeps-refl e t h = record { row = e; found = h; same = ground arith }

module _ {a : JournalEntry} (now : ℕ) (id : String) (t : Journal) (k : Keeps a t) where
  pub Keeps-record_accepted :
      (operation : String) (generation : ℕ)
      → Keeps a (record_accepted now id operation generation t)
  Keeps-record_accepted operation generation = record {
    row = k.row;
    found = ground (arith, k.found, get-record_accepted now id operation a.command_id generation t);
    same = k.same;
  }

  pub Keeps-record_running : id ≢ a.command_id → Keeps a (record_running now id t)
  Keeps-record_running ne = record {
    row = k.row;
    found =
        ground (arith, k.found, get-record_running now id a.command_id t, eq_iff id a.command_id);
    same = k.same;
  }

  pub Keeps-record_result : (o : Outcome) → id ≢ a.command_id → Keeps a (record_result now id o t)
  Keeps-record_result o ne = record {
    row = k.row;
    found =
        ground (arith, k.found, get-record_result now id a.command_id o t, eq_iff id a.command_id);
    same = k.same;
  }

  pub Keeps-mark_reported : Keeps a (mark_reported now id t)
  Keeps-mark_reported = elim (Bool-cases (id == a.command_id)) [
    | inl this_row ↦ record {
      row = report now k.row;
      found = ground (arith, k.found, get-mark_reported now id a.command_id t);
      same = ground (arith, k.same);
    }
    | inr other_row ↦ record {
      row = k.row;
      found = ground (arith, k.found, get-mark_reported now id a.command_id t);
      same = k.same;
    }
  ]
