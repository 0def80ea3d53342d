-- ===== src/Main/Report.antt =====
-- The `report_result` of main.py meets what the executor relies on.
use browseterm_device_agent.Prelude.{
  ℕ, String, ◌≡◌, inl, inr, Bool-cases, Bool, arith, if◌then◌else◌,
}
use browseterm_device_agent.Effects.{Result, ok, err, Result-cases}
use browseterm_device_agent.State.Journal.{Journal, Outcome, mark_reported}
use browseterm_device_agent.State.Journal.Unique.{IsUnique, mark_reported-IsUnique}
use browseterm_device_agent.State.Journal.Progress.{Keeps, Keeps-mark_reported}
use browseterm_device_agent.Clients.Cloud.Calls.{report_command_result}
use browseterm_device_agent.Commands.Env.{Env}
use browseterm_device_agent.Commands.Executor.Rules.{IsReport}
use browseterm_device_agent.Commands.Executor.Queue.{IsSilent}
use browseterm_device_agent.Main.{report_result}
use browseterm_device_agent.Agent.{Agent}

module _ {W : Type 0} (env : Env W) (id : String) (generation : ℕ) (o : Outcome) (a : Agent W) where
  abbrev asked : Result Bool × W
  asked = report_command_result env.cloud id o generation a.world

  -- The row is marked as reported exactly when the Cloud has answered with 200.
  pub journal-report_result :
      (report_result env id generation o a).1.journal
      ≡ (elim (report_command_result env.cloud id o generation a.world).0 [
        | ok done ↦
            if done
            then mark_reported
                (env.now (report_command_result env.cloud id o generation a.world).1)
                id
                a.journal
            else a.journal
        | err x ↦ a.journal
      ])
  unfolding report_result
  journal-report_result = ground arith

  cache-report_result : (report_result env id generation o a).1.placement_cache ≡ a.placement_cache
  unfolding report_result
  cache-report_result = ground arith

  pub report-kept :
      (P : Journal → Type 0)
      → ((now : ℕ) (t : Journal) → P t → P (mark_reported now id t))
      → P a.journal
      → P (report_result env id generation o a).1.journal
  report-kept P marked h = elim (Result-cases asked.0) [
    | inl (done, e) ↦ elim (Bool-cases done) [
      | inl yes_done ↦ rw (journal-report_result, e, yes_done) (marked _ a.journal h)
      | inr not_done ↦ rw (journal-report_result, e, not_done) h
    ]
    | inr (x, e) ↦ rw (journal-report_result, e) h
  ]

pub report_result-IsReport : {W : Type 0} (env : Env W) → IsReport (report_result env)
report_result-IsReport env = record {
  keeps = λ id generation o a e k.
      report-kept env id generation o a (Keeps e) (λ now t. Keeps-mark_reported now id t) k;
  unique = λ id generation o a u.
      report-kept env id generation o a IsUnique (λ now. mark_reported-IsUnique now id) u;
  cache = cache-report_result env;
}

-- Nothing is sent over the stream.
pub report_result-IsSilent : {W : Type 0} (env : Env W) → IsSilent (report_result env)
unfolding report_result
report_result-IsSilent env = record { outbound = λ id generation o a. ground arith }
