-- ===== src/Commands/Delete.antt =====
-- commands/delete.py
use browseterm_device_agent.Prelude.{String, if◌then◌else◌}
use browseterm_device_agent.Json.{Json, str, obj, field, end}
use browseterm_device_agent.Json.Access.{get}
use browseterm_device_agent.Effects.{Action, pure, lift, handle, ◌>>=◌}
use browseterm_device_agent.Clients.Maker.{DeleteContainerResponse, delete_container}
use browseterm_device_agent.Commands.Env.{ExecuteCommand, Env, Reply, success, on_maker_error}
use browseterm_device_agent.Commands.Config.{config_or_empty, is_already_gone, maker_failure}

-- {"container_id": ..., "status": ...}
abbrev pub delete_result : (container_id status : String) → Json
delete_result container_id status =
    obj (field "container_id" (str container_id) (field "status" (str status) end))

module _ {W : Type 0} (env : Env W) (command : ExecuteCommand) where
  abbrev pub deleted_reply : DeleteContainerResponse → Action W Reply
  deleted_reply response = pure (success (delete_result response.container_id response.status))

  abbrev pub deletion_failed : (message : String) → Action W Reply
  deletion_failed message =
      if is_already_gone message
      then pure (success (delete_result command.container_id "already_deleted"))
      else pure (maker_failure message)

  abbrev pub delete_in : (network_name : Json) → Action W Reply
  delete_in network_name =
      handle (delete_container env.maker command.container_id network_name command.trace_id)
        deleted_reply (on_maker_error deletion_failed)

  unfoldable pub handle_delete : Action W Reply
  handle_delete = do
    network_name ←
        lift (get (config_or_empty command.container_config_json) "network_name" (str ""))
    delete_in network_name
