-- ===== src/Tests/Commands.antt =====
-- The theorems on device_agent/commands at concrete inputs.
use browseterm_device_agent.Prelude.{
  ℕ, ◌≡◌, ◌≢◌, refl, false, some, [], arith, String, eq_iff, if◌then◌else◌,
}
use browseterm_device_agent.Text.{take_chars}
use browseterm_device_agent.Json.{str, null}
use browseterm_device_agent.Json.Access.{get}
use browseterm_device_agent.Effects.{ok, err, stuck, other}
use browseterm_device_agent.Clients.Retry.{call_with_retry, retry_from}
use browseterm_device_agent.Clients.Maker.{
  SavedPod, delete_container, save_container, wrap, is_retryable,
}
use browseterm_device_agent.Clients.Cloud.Calls.{report_command_result}
use browseterm_device_agent.State.Journal
use browseterm_device_agent.State.Journal.{Journal, Outcome, JournalEntry, has_seen}
use browseterm_device_agent.State.Journal.Progress.{Keeps, Keeps-refl}
use browseterm_device_agent.Commands.Env.{delete, hibernate, ExecuteCommand, success}
use browseterm_device_agent.Commands.Delete.{handle_delete, delete_result}
use browseterm_device_agent.Commands.Hibernate.{handle_hibernate}
use browseterm_device_agent.Commands.Hibernate.Safety.{SavesFirst, hibernate-unsaved}
use browseterm_device_agent.Commands.Save.{SaveOutcome, perform_save, poll}
use browseterm_device_agent.Commands.Save.Polling.{poll-terminates}
use browseterm_device_agent.Commands.Save.Confirmed.{Confirmed}
use browseterm_device_agent.Commands.Executor.{Report, failed_with, execute, register}
use browseterm_device_agent.Commands.Executor.Rules.{IsReport, Settled}
use browseterm_device_agent.Commands.Executor.Holds.{Holds, IsPlaced, execute-Holds}
use browseterm_device_agent.Commands.Executor.Settles.{execute-report_raises}
use browseterm_device_agent.Commands.Executor.Ordering.{execute-journals_first}
use browseterm_device_agent.Commands.Executor.Isolation.{execute-Keeps}
use browseterm_device_agent.Main.{report_result, handlers}
use browseterm_device_agent.Main.Report.{report_result-IsReport}
use browseterm_device_agent.Agent.{Agent}
use browseterm_device_agent.Tests.World.{
  World, calm, stormy, down, env, env-Live, rows, finished_entry, agent, command,
}

abbrev pod : SavedPod
pod = record { pod_name = "box-pod"; namespace_name = "ns" }

poll-terminates_example : (poll env "k1" "t1" 900002 900100 pod calm).0 ≢ err stuck
poll-terminates_example =
    poll-terminates env env-Live.cloud "k1" "t1" pod 900002 900100 calm (omega arith) (omega arith)

abbrev hibernation : ExecuteCommand
hibernation = command hibernate "c9"

first : SavesFirst hibernation (str "net")
unfolding get
first = record { skip_save = null; named = refl; asked = refl; not_skipped = refl }

-- With Container Maker down no snapshot is started.
unsaved :
    (o : SaveOutcome) → (perform_save env "k1" "t1" (str "net") down).0 ≡ ok o → o.succeeded ≡ false
unfolding perform_save save_container call_with_retry retry_from is_retryable wrap
unsaved o h = ground arith

hibernate-unsaved_example :
    (handle_hibernate env hibernation down).1 ≡ (perform_save env "k1" "t1" (str "net") down).1
hibernate-unsaved_example = hibernate-unsaved env hibernation (str "net") first down unsaved

report_result-returns :
    (id : String) (generation : ℕ) (o : Outcome) (a : Agent World)
    → (report_result env id generation o a).0 ≡ ok tt
unfolding report_result report_command_result call_with_retry retry_from
report_result-returns id generation o a = refl

deleted_ok :
    (handle_delete env (command delete "c2") stormy).0 ≡ ok (success (delete_result "k1" "deleted"))
unfolding handle_delete delete_container call_with_retry retry_from is_retryable get
deleted_ok = refl

registered_delete : handlers env delete ≡ some (handle_delete env)
unfolding handlers register
registered_delete = refl

execute-Holds_example :
    let r = (handle_delete env (command delete "c2") stormy).0 in
    let (returned, b) =
      execute env (report_result env) (handlers env) "c2" (command delete "c2") agent in
    (returned ≡ ok tt)
    × Holds "c2" r b.journal
    × IsPlaced (command delete "c2") r (some []) b.placement_cache
execute-Holds_example =
    execute-Holds env (report_result env) (handlers env) (report_result-IsReport env) "c2"
      (command delete "c2") agent (handle_delete env) registered_delete (report_result-returns "c2")
      (λ s. cc deleted_ok)

-- A report that looks into the journal first, and stays silent where the command is not there.
abbrev careful : Report World
careful id generation o b =
    if has_seen id b.journal then report_result env id generation o b else (ok tt, b)

agrees :
    (id : String) (generation : ℕ) (o : Outcome) (b : Agent World)
    → Settled id o b.journal
    → report_result env id generation o b ≡ careful id generation o b
unfolding has_seen
agrees id generation o b s = ground (arith, s.found)

execute-journals_first_example :
    execute env (report_result env) (handlers env) "c2" (command delete "c2") agent
    ≡ execute env careful (handlers env) "c2" (command delete "c2") agent
execute-journals_first_example =
    execute-journals_first env (report_result env) careful (handlers env)
      (report_result-IsReport env) "c2" (agrees "c2") (command delete "c2") agent
      (handle_delete env) registered_delete

-- A report that raises.
abbrev broken : Report World
broken id generation o b = (err (other "disk full"), b)

broken-IsReport : IsReport broken
broken-IsReport = record {
  keeps = λ id generation o a e k. k;
  unique = λ id generation o a u. u;
  cache = λ id generation o a. refl;
}

execute-report_raises_example :
    Settled "c2"
      (failed_with "HANDLER_EXCEPTION" (take_chars 1000 "disk full"))
      (execute env broken (handlers env) "c2" (command delete "c2") agent).1.journal
execute-report_raises_example =
    execute-report_raises env broken (handlers env) broken-IsReport "c2" (command delete "c2") agent
      (handle_delete env) registered_delete (success (delete_result "k1" "deleted")) "disk full"
      deleted_ok (λ generation b. refl)

c2-ne-c1 : ◌≢◌ {A = String} "c2" "c1"
c2-ne-c1 = ground (arith, eq_iff "c2" "c1")

execute-Keeps_example :
    Keeps finished_entry
      (execute env (report_result env) (handlers env) "c2" (command delete "c2") agent).1.journal
unfolding Journal.get
execute-Keeps_example =
    execute-Keeps env (report_result env) (handlers env) (report_result-IsReport env) "c2"
      (command delete "c2") agent finished_entry c2-ne-c1 (Keeps-refl finished_entry rows refl)
