-- ===== src/Commands/Hibernate.antt =====
-- commands/hibernate.py
pub mod Safety
use browseterm_device_agent.Prelude.{String, none, if◌then◌else◌}
use browseterm_device_agent.Text.{take_chars}
use browseterm_device_agent.Json.{Json, null, str, obj, field, end, plain, dumped, truthy}
use browseterm_device_agent.Json.Access.{get}
use browseterm_device_agent.Effects.{Action, pure, lift, handle, ◌>>=◌}
use browseterm_device_agent.Clients.Maker.{DeleteContainerResponse, delete_container}
use browseterm_device_agent.Commands.Env.{
  ExecuteCommand, Env, Reply, success, failure, on_maker_error,
}
use browseterm_device_agent.Commands.Config.{config_or_empty, is_already_gone}
use browseterm_device_agent.Commands.Save.{SaveOutcome, perform_save, save_failure, saved_result}

-- The error message of a failed delete after a save: the image is not to be lost.
abbrev pub kept_image : (saved_image : Json) (message : String) → Reply
kept_image saved_image message = failure "POD_DELETE_FAILED_AFTER_SAVE" (
    dumped
      (obj (field "saved_image" saved_image (field "detail" (str (take_chars 800 message)) end))))

module _ {W : Type 0} (env : Env W) (command : ExecuteCommand) (network_name : Json) where
  abbrev pub delete_pod : Action W DeleteContainerResponse
  delete_pod = delete_container env.maker command.container_id network_name command.trace_id

  abbrev pub unsaved_failed : (message : String) → Action W Reply
  unsaved_failed message =
      if is_already_gone message
      then pure (success (obj end))
      else pure (failure "POD_DELETE_FAILED" (plain (take_chars 1000 message)))

  -- `cfg.get("skip_save")`: the pod is deleted and nothing is saved.
  unfoldable pub delete_unsaved : Action W Reply
  delete_unsaved =
      handle delete_pod (λ response. pure (success (obj end))) (on_maker_error unsaved_failed)

  -- Steps 2 and 3, after the save.
  unfoldable pub delete_saved : SaveOutcome → Action W Reply
  delete_saved outcome =
      if outcome.succeeded
      then handle delete_pod (λ response. pure (success (saved_result outcome)))
          (on_maker_error λ message. pure (kept_image outcome.image_reference message))
      else save_failure outcome "Snapshot failed"

module _ {W : Type 0} (env : Env W) (command : ExecuteCommand) where
  abbrev pub save_then_delete : (network_name : Json) → Action W Reply
  save_then_delete network_name = do
    outcome ← perform_save env command.container_id command.trace_id network_name
    delete_saved env command network_name outcome

  abbrev pub hibernate_in : (cfg network_name : Json) → Action W Reply
  hibernate_in cfg network_name = do
    skip_save ← lift (get cfg "skip_save" null)
    if truthy skip_save
        then delete_unsaved env command network_name
        else save_then_delete network_name

  unfoldable pub handle_hibernate : Action W Reply
  handle_hibernate = do
    let cfg = config_or_empty command.container_config_json
    network_name ← lift (get cfg "network_name" (str ""))
    hibernate_in cfg network_name
