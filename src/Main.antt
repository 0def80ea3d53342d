-- ===== src/Main.antt =====
-- device_agent/main.py: which report and which handlers the executor is given. Startup and Run have
-- what the process does before and around the loop.
pub mod Report
pub mod Session
pub mod Once
pub mod Delivery
pub mod Ends
pub mod Forever
pub mod Reaches
pub mod Run
pub mod Startup
pub mod Process
pub mod Typed
use browseterm_device_agent.Prelude.{ℕ, String, Bool, none, if◌then◌else◌}
use browseterm_device_agent.Effects.{Action, ok, ◌>>=◌}
use browseterm_device_agent.State.Journal.{Outcome, mark_reported}
use browseterm_device_agent.Clients.Cloud.Calls.{report_command_result}
use browseterm_device_agent.Commands.Env.{
  create, delete, hibernate, resume, save, ExecuteCommand, Env,
}
use browseterm_device_agent.Commands.Create.{handle_create}
use browseterm_device_agent.Commands.Delete.{handle_delete}
use browseterm_device_agent.Commands.Hibernate.{handle_hibernate}
use browseterm_device_agent.Commands.Resume.{handle_resume}
use browseterm_device_agent.Commands.Save.{handle_save}
use browseterm_device_agent.Commands.Executor.{Handlers, no_handlers, register, execute}
use browseterm_device_agent.Agent.{Agent, outside, on_journal}

module _ {W : Type 0} (env : Env W) where
  -- `report_result`: over HTTP, and marked as reported only if the Cloud has confirmed it.
  unfoldable pub report_result :
      (command_id : String) (placement_generation : ℕ) → Outcome → Action (Agent W) (Unit {0})
  report_result command_id placement_generation o = do
    done ← outside (report_command_result env.cloud command_id o placement_generation)
    λ a. (ok tt, (if done then on_journal (mark_reported (env.now a.world) command_id) a else a))

  -- The handlers that are registered; there is none for Reconcile.
  unfoldable pub handlers : Handlers W
  unfolding register handle_create handle_delete handle_hibernate handle_resume handle_save
  handlers = register create (handle_create env) (
      register delete (handle_delete env) (
        register hibernate (handle_hibernate env)
          (register resume (handle_resume env) (register save (handle_save env) no_handlers))))

  unfoldable pub on_execute_command :
      (command_id : String) → ExecuteCommand → Action (Agent W) (Unit {0})
  on_execute_command = execute env report_result handlers
