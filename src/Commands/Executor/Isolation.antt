-- ===== src/Commands/Executor/Isolation.antt =====
-- What commands/executor.py leaves alone: the rows of other commands, and the uniqueness of rows.
use browseterm_device_agent.Prelude.{
  ℕ, String, ◌≡◌, ◌≢◌, some, Bool, true, false, inl, inr, Option-cases, if◌then◌else◌,
}
use browseterm_device_agent.Effects.{ok, Exc, stuck, Result-cases}
use browseterm_device_agent.State.Journal.{
  Journal, JournalEntry, Outcome, has_seen, record_accepted, record_running, record_result,
}
use browseterm_device_agent.State.Journal.Unique.{
  IsUnique, record_accepted-IsUnique, record_running-IsUnique, record_result-IsUnique,
}
use browseterm_device_agent.State.Journal.Progress.{
  Keeps, Keeps-record_accepted, Keeps-record_running, Keeps-record_result,
}
use browseterm_device_agent.Commands.Env.{ExecuteCommand, Env, Handler, Reply}
use browseterm_device_agent.Commands.Executor.{
  Handlers, Report, execute, attempt, recover, start, finish, outcome_of, failed_with, no_handler,
}
use browseterm_device_agent.Commands.Executor.Rules.{
  IsReport, place-journal, attempt-ok, attempt-err, execute-ok, execute-err, execute-none,
}
use browseterm_device_agent.Agent.{Agent}

-- The outcomes that the executor may record for a command are all in `Q`.
pub record MayRecord {W : Type 0} (handlers : Handlers W) (command : ExecuteCommand)
    (Q : Outcome → Type 0) : Type 0 where
  pub replied :
      (handler : Handler W) (w : W) (reply : Reply)
      → handlers command.operation ≡ some handler
      → (handler command w).0 ≡ ok reply
      → Q (outcome_of reply)
  pub failing : (code message : String) → Q (failed_with code message)

-- The writes of one command keep `P`.
pub record IsKept {W : Type 0} (report_result : Report W) (id : String) (P : Journal → Type 0)
    (Q : Outcome → Type 0) : Type 0 where
  pub accepting :
      (now generation : ℕ) (operation : String) (t : Journal)
      → P t
      → P (record_accepted now id operation generation t)
  pub running : (now : ℕ) (t : Journal) → P t → P (record_running now id t)
  pub finishing : (now : ℕ) (o : Outcome) (t : Journal) → Q o → P t → P (record_result now id o t)
  pub reporting :
      (generation : ℕ) (o : Outcome) (a : Agent W)
      → P a.journal
      → P (report_result id generation o a).1.journal

module _ {W : Type 0} (env : Env W) (report_result : Report W) (handlers : Handlers W) (id : String)
    (P : Journal → Type 0) (Q : Outcome → Type 0) (kept : IsKept report_result id P Q)
    (command : ExecuteCommand) (may : MayRecord handlers command Q) where
  finish-kept :
      (generation : ℕ) (o : Outcome) (a : Agent W)
      → Q o
      → P a.journal
      → P (finish env report_result id generation o a).1.journal
  unfolding finish
  finish-kept generation o a q h =
      kept.reporting generation o _ (kept.finishing (env.now a.world) o a.journal q h)

  if-kept : (b : Bool) (t u : Journal) → P t → P u → P (if b then t else u)
  if-kept true t u ht hu = ht
  if-kept false t u ht hu = hu

  start-kept : (a : Agent W) → P a.journal → P (start env id command a).journal
  unfolding start
  start-kept a h =
      kept.running _ _ (if-kept (has_seen id a.journal) _ _ h (kept.accepting _ _ _ a.journal h))

  attempt-kept :
      (handler : Handler W) (a : Agent W)
      → handlers command.operation ≡ some handler
      → P a.journal
      → P (attempt env report_result id command handler a).1.journal
  attempt-kept handler a registered h = elim (Result-cases (handler command a.world).0) [
    | inl (reply, e) ↦
        rw (attempt-ok env report_result handlers id command handler a reply e)
          (finish-kept _ _ _ (may.replied handler a.world reply registered e) (rw place-journal h))
    | inr (x, e) ↦ rw (attempt-err env report_result handlers id command handler a x e) h
  ]

  recover-kept :
      (e : Exc) (a : Agent W) → P a.journal → P (recover env report_result id command e a).1.journal
  unfolding recover
  recover-kept stuck a h = h
  recover-kept _ a h = finish-kept _ _ a (may.failing _ _) h

  no_handler-kept : Q (no_handler env command)
  unfolding no_handler
  no_handler-kept = may.failing _ _

  pub execute-kept :
      (a : Agent W) → P a.journal → P (execute env report_result handlers id command a).1.journal
  execute-kept a h = elim (Option-cases (handlers command.operation)) [
    | inl absent ↦
        rw (execute-none env report_result handlers id command a absent)
          (finish-kept _ _ a no_handler-kept h)
    | inr (handler, registered) ↦
        let begun = start env id command a in
        elim (Result-cases (attempt env report_result id command handler begun).0) [
          | inl (done, e) ↦
              rw (execute-ok env report_result handlers id command a handler registered e)
                (attempt-kept handler begun registered (start-kept a h))
          | inr (x, e) ↦
              rw (execute-err env report_result handlers id command a handler x registered e)
                (recover-kept x _ (attempt-kept handler begun registered (start-kept a h)))
        ]
  ]

abbrev AnyOutcome : Outcome → Type 0
AnyOutcome o = Unit

module _ {W : Type 0} (env : Env W) (report_result : Report W) (handlers : Handlers W)
    (is_report : IsReport report_result) (id : String) (command : ExecuteCommand)
    (a : Agent W) where
  any-MayRecord : MayRecord handlers command AnyOutcome
  any-MayRecord = record { replied = λ handler w reply h r. tt; failing = λ code message. tt }

  -- If the report takes no result back, then the execution of a command keeps the row of every
  -- other command with its result, whatever handlers are registered and whatever they do.
  pub execute-Keeps :
      (e : JournalEntry)
      → id ≢ e.command_id
      → Keeps e a.journal
      → Keeps e (execute env report_result handlers id command a).1.journal
  execute-Keeps e ne =
      execute-kept env report_result handlers id (Keeps e) AnyOutcome
        (record {
          accepting =
              λ now generation operation t k. Keeps-record_accepted now id t k operation generation;
          running = λ now t k. Keeps-record_running now id t k ne;
          finishing = λ now o t q k. Keeps-record_result now id t k o ne;
          reporting = λ generation o b k. is_report.keeps id generation o b e k;
        })
        command any-MayRecord a

  pub execute-IsUnique :
      IsUnique a.journal → IsUnique (execute env report_result handlers id command a).1.journal
  execute-IsUnique =
      execute-kept env report_result handlers id IsUnique AnyOutcome
        (record {
          accepting =
              λ now generation operation. record_accepted-IsUnique now id operation generation;
          running = λ now. record_running-IsUnique now id;
          finishing = λ now o t q. record_result-IsUnique now id o t;
          reporting = λ generation o b u. is_report.unique id generation o b u;
        })
        command any-MayRecord a
