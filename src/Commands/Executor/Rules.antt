-- ===== src/Commands/Executor/Rules.antt =====
-- What commands/executor.py asks of the report, and each of its calls as an equation.
use mathlib.Core.Path.{subst}
use browseterm_device_agent.Prelude.{
  sym, ℕ, String, ◌≡◌, ◌≢◌, refl, none, some, arith, eq_refl, inl, inr, Option-cases, if◌then◌else◌,
}
use browseterm_device_agent.Text.{take_chars}
use browseterm_device_agent.Effects.{ok, err, Exc, stuck}
use browseterm_device_agent.State.Journal.{
  Journal, JournalEntry, Outcome, get, has_seen, settle, record_accepted, record_running,
  record_result,
}
use browseterm_device_agent.State.Journal.Rows.{
  get-record_accepted, get-record_running, get-record_result, get-command_id,
}
use browseterm_device_agent.State.Journal.Unique.{IsUnique}
use browseterm_device_agent.State.Journal.Progress.{Keeps, Keeps-refl}
use browseterm_device_agent.Commands.Env.{ExecuteCommand, Env, Reply, Handler}
use browseterm_device_agent.Commands.Executor.{
  Handlers, Report, execute, attempt, recover, start, finish, place_if_succeeded, outcome_of,
  failed_with, exc_text, no_handler,
}
use browseterm_device_agent.Agent.{Agent}

-- What the executor relies on of `report_result`: it takes no result back, whether it returns or
-- raises, keeps one row for each command, and leaves the placement cache alone.
pub record IsReport {W : Type 0} (report_result : Report W) : Type 0 where
  pub keeps :
      (id : String) (generation : ℕ) (o : Outcome) (a : Agent W) (e : JournalEntry)
      → Keeps e a.journal
      → Keeps e (report_result id generation o a).1.journal
  pub unique :
      (id : String) (generation : ℕ) (o : Outcome) (a : Agent W)
      → IsUnique a.journal
      → IsUnique (report_result id generation o a).1.journal
  pub cache :
      (id : String) (generation : ℕ) (o : Outcome) (a : Agent W)
      → (report_result id generation o a).1.placement_cache ≡ a.placement_cache

-- The command has a row.
abbrev pub HasRow : String → Journal → Type 0
HasRow id t = get id t ≢ none

-- The row of the command has this outcome.
pub record Settled (id : String) (o : Outcome) (t : Journal) : Type 0 where
  pub row : JournalEntry
  pub found : get id t ≡ some row
  pub status : row.status ≡ o.status
  pub result : row.result_json ≡ o.result
  pub error_code : row.error_code ≡ o.error_code
  pub error_message : row.error_message ≡ o.error_message

pub record_result-Settled :
    (now : ℕ) (id : String) (o : Outcome) (t : Journal)
    → HasRow id t
    → Settled id o (record_result now id o t)
record_result-Settled now id o t h = elim (Option-cases (get id t)) [
  | inl absent ↦ absurd (h absent)
  | inr (e, found) ↦ record {
    row = settle now o e;
    found = ground (arith, get-record_result now id id o t, eq_refl id);
    status = refl;
    result = refl;
    error_code = refl;
    error_message = refl;
  }
]

-- A settled row stays settled where results are kept.
pub Settled-Keeps :
    {t u : Journal} (id : String) (o : Outcome)
    → ((e : JournalEntry) → Keeps e t → Keeps e u)
    → Settled id o t
    → Settled id o u
Settled-Keeps {t} {u} id o keeps s =
    let named = get-command_id id t s.row s.found in
    let k =
      keeps s.row (Keeps-refl s.row t (subst (λ i. get i t ≡ some s.row) (sym named) s.found)) in
    record {
      row = k.row;
      found = subst (λ i. get i u ≡ some k.row) named k.found;
      status = ground (arith, k.same.same_status, s.status);
      result = ground (arith, k.same.same_result, s.result);
      error_code = ground (arith, k.same.same_error_code, s.error_code);
      error_message = ground (arith, k.same.same_error_message, s.error_message);
    }

pub start-HasRow :
    (now : ℕ) (id operation : String) (generation : ℕ) (t : Journal)
    → HasRow id (
        record_running now id
          (if has_seen id t then t else record_accepted now id operation generation t))
unfolding has_seen
start-HasRow now id operation generation t = ground (
  arith,
  get-record_running now id id t,
  get-record_running now id id (record_accepted now id operation generation t),
  get-record_accepted now id operation id generation t,
  eq_refl id,
)

pub Settled-HasRow : {t : Journal} (id : String) (o : Outcome) → Settled id o t → HasRow id t
Settled-HasRow id o s = ground (arith, s.found)

module _ {W : Type 0} (env : Env W) (report_result : Report W) (handlers : Handlers W) where
  pub place-journal :
      (command : ExecuteCommand) (reply : Reply) (a : Agent W)
      → (place_if_succeeded command reply a).journal ≡ a.journal
  unfolding place_if_succeeded
  place-journal command reply a = ground arith

  pub recover-finish :
      (id : String) (command : ExecuteCommand) (e : Exc) (a : Agent W)
      → e ≢ stuck
      → recover env report_result id command e a
        ≡ finish env report_result id command.placement_generation
            (failed_with "HANDLER_EXCEPTION" (take_chars 1000 (exc_text e)))
            a
  unfolding recover
  recover-finish id command stuck a h = absurd (h refl)
  recover-finish id command _ a h = refl

  pub attempt-ok :
      (id : String) (command : ExecuteCommand) (handler : Handler W) (a : Agent W) (reply : Reply)
      → (handler command a.world).0 ≡ ok reply
      → attempt env report_result id command handler a
        ≡ finish env report_result id command.placement_generation
            (outcome_of reply)
            (place_if_succeeded command reply (record a { world = (handler command a.world).1 }))
  unfolding attempt
  attempt-ok id command handler a reply h = ground arith

  pub attempt-err :
      (id : String) (command : ExecuteCommand) (handler : Handler W) (a : Agent W) (e : Exc)
      → (handler command a.world).0 ≡ err e
      → attempt env report_result id command handler a
        ≡ (err e, record a { world = (handler command a.world).1 })
  unfolding attempt
  attempt-err id command handler a e h = ground arith

  pub execute-ok :
      (id : String) (command : ExecuteCommand) (a : Agent W) (handler : Handler W)
      → handlers command.operation ≡ some handler
      → (attempt env report_result id command handler (start env id command a)).0 ≡ ok tt
      → execute env report_result handlers id command a
        ≡ attempt env report_result id command handler (start env id command a)
  unfolding execute
  execute-ok id command a handler h e = ground arith

  pub execute-none :
      (id : String) (command : ExecuteCommand) (a : Agent W)
      → handlers command.operation ≡ none
      → execute env report_result handlers id command a
        ≡ finish env report_result id command.placement_generation (no_handler env command) a
  unfolding execute
  execute-none id command a h = ground arith

  pub execute-err :
      (id : String) (command : ExecuteCommand) (a : Agent W) (handler : Handler W) (e : Exc)
      → handlers command.operation ≡ some handler
      → (attempt env report_result id command handler (start env id command a)).0 ≡ err e
      → execute env report_result handlers id command a
        ≡ recover env report_result id command e
            (attempt env report_result id command handler (start env id command a)).1
  unfolding execute
  execute-err id command a handler e h x = ground arith

  module _ (is_report : IsReport report_result) where
    pub finish-Settled :
        (id : String) (generation : ℕ) (o : Outcome) (a : Agent W)
        → HasRow id a.journal
        → Settled id o (finish env report_result id generation o a).1.journal
    unfolding finish
    finish-Settled id generation o a h =
        Settled-Keeps id o (is_report.keeps id generation o _)
          (record_result-Settled (env.now a.world) id o a.journal h)
