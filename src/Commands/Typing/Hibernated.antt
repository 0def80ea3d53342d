-- ===== src/Commands/Typing/Hibernated.antt =====
-- The replies of commands/save.py and commands/hibernate.py have the shape of their operation.
use browseterm_device_agent.Prelude.{String, refl, if◌then◌else◌}
use browseterm_device_agent.Text.{take_chars}
use browseterm_device_agent.Json.{Json, null, str, plain, obj, end, truthy}
use browseterm_device_agent.Json.Access.{get}
use browseterm_device_agent.Effects.{Action, pure, lift, handle}
use browseterm_device_agent.Effects.Post.{
  returns, Gives, Anything, Post-any, Gives-if, Gives-on_maker_error, Gives-bind, Gives-handle,
}
use browseterm_device_agent.Commands.Env.{
  hibernate, save, ExecuteCommand, Env, Reply, success, failure, on_maker_error,
}
use browseterm_device_agent.Commands.Config.{config_or_empty, is_already_gone}
use browseterm_device_agent.Commands.Save.{
  SaveOutcome, perform_save, saved_result, saved_reply, save_failure, save_in, handle_save,
}
use browseterm_device_agent.Commands.Hibernate.{
  delete_pod, unsaved_failed, delete_unsaved, delete_saved, kept_image, hibernate_in,
  save_then_delete, handle_hibernate,
}
use browseterm_device_agent.Commands.Typing.{
  of_object, of_left, of_right, no_fields, IsReply, succeeds, fails,
}
use browseterm_device_agent.Commands.Typing.Saved.{
  IsOutcome, perform_save-Gives, save_failure-Gives,
}

abbrev saved_failed : {W : Type 0} → SaveOutcome → (message : String) → Action W Reply
saved_failed outcome message = pure (kept_image outcome.image_reference message)

module _ {W : Type 0} (env : Env W) (command : ExecuteCommand) where
  saved_reply-IsReply :
      (outcome : SaveOutcome)
      → IsOutcome outcome
      → Gives (IsReply save) (saved_reply env command outcome)
  saved_reply-IsReply outcome h =
      Gives-if (pure (success (saved_result outcome))) (save_failure outcome "Save failed")
        outcome.succeeded (λ done s. returns (succeeds (h.typed done)))
        (λ failed. save_failure-Gives save outcome "Save failed" refl refl)

  pub save-IsReply : Gives (IsReply save) (handle_save env command)
  unfolding handle_save
  save-IsReply =
      Gives-bind {Q = Anything}
        (lift (get (config_or_empty command.container_config_json) "network_name" (str "")))
        (save_in env command) (λ s. Post-any _)
        λ network_name q.
          Gives-bind (perform_save env command.container_id command.trace_id network_name)
            (saved_reply env command)
            (perform_save-Gives env command.container_id command.trace_id network_name)
            saved_reply-IsReply

  module _ (network_name : Json) where
    unsaved_failed-IsReply :
        (message : String)
        → Gives (IsReply hibernate) (unsaved_failed env command network_name message)
    unsaved_failed-IsReply message =
        Gives-if (pure (success (obj end)))
          (pure (failure "POD_DELETE_FAILED" (plain (take_chars 1000 message))))
          (is_already_gone message) (λ gone s. returns (succeeds (of_left (of_object no_fields))))
          (λ other s. returns (fails refl))

    delete_unsaved-IsReply : Gives (IsReply hibernate) (delete_unsaved env command network_name)
    unfolding delete_unsaved
    delete_unsaved-IsReply =
        Gives-handle {Q = Anything} (delete_pod env command network_name)
          (λ response. pure (success (obj end)))
          (on_maker_error (unsaved_failed env command network_name)) (λ s. Post-any _)
          (λ response r s. returns (succeeds (of_left (of_object no_fields))))
          (Gives-on_maker_error (unsaved_failed env command network_name) unsaved_failed-IsReply)

    delete_saved-IsReply :
        (outcome : SaveOutcome)
        → IsOutcome outcome
        → Gives (IsReply hibernate) (delete_saved env command network_name outcome)
    unfolding delete_saved
    delete_saved-IsReply outcome h =
        Gives-if
          (handle (delete_pod env command network_name)
            (λ response. pure (success (saved_result outcome)))
            (on_maker_error (saved_failed outcome)))
          (save_failure outcome "Snapshot failed") outcome.succeeded
          (λ done.
            Gives-handle {Q = Anything} (delete_pod env command network_name)
              (λ response. pure (success (saved_result outcome)))
              (on_maker_error (saved_failed outcome)) (λ s. Post-any _)
              (λ response r s. returns (succeeds (of_right (h.typed done))))
              (Gives-on_maker_error (saved_failed outcome) λ message s. returns (fails refl)))
          (λ failed. save_failure-Gives hibernate outcome "Snapshot failed" refl refl)

    save_then_delete-IsReply : Gives (IsReply hibernate) (save_then_delete env command network_name)
    save_then_delete-IsReply =
        Gives-bind (perform_save env command.container_id command.trace_id network_name)
          (delete_saved env command network_name)
          (perform_save-Gives env command.container_id command.trace_id network_name)
          delete_saved-IsReply

    skip_save-checked :
        (skip_save : Json)
        → Gives (IsReply hibernate) (
            if truthy skip_save
            then delete_unsaved env command network_name
            else save_then_delete env command network_name)
    skip_save-checked skip_save =
        Gives-if (delete_unsaved env command network_name)
          (save_then_delete env command network_name) (truthy skip_save)
          (λ skips. delete_unsaved-IsReply) (λ saves. save_then_delete-IsReply)

  pub hibernate-IsReply : Gives (IsReply hibernate) (handle_hibernate env command)
  unfolding handle_hibernate
  hibernate-IsReply =
      let cfg = config_or_empty command.container_config_json in
      Gives-bind {Q = Anything} (lift (get cfg "network_name" (str "")))
        (hibernate_in env command cfg) (λ s. Post-any _)
        λ network_name q.
          Gives-bind {Q = Anything} (lift (get cfg "skip_save" null))
            (λ skip_save.
              if truthy skip_save
              then delete_unsaved env command network_name
              else save_then_delete env command network_name)
            (λ s. Post-any _) (λ skip_save r. skip_save-checked network_name skip_save)
