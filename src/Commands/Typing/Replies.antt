-- ===== src/Commands/Typing/Replies.antt =====
-- Every reply of the handlers of device_agent/commands has the shape of its operation.
use browseterm_device_agent.Prelude.{
  String, ◌≡◌, refl, some, List, [], ◌∷◌, arith, Option-cases, inl, inr, if◌then◌else◌,
}
use browseterm_device_agent.Json.{Json, str, loads, truthy}
use browseterm_device_agent.Json.Access.{get, index}
use browseterm_device_agent.Effects.{pure, lift}
use browseterm_device_agent.Effects.Post.{
  Post, returns, Gives, Anything, Post-any, Gives-if, Gives-on_maker_error, Gives-bind,
  Gives-handle,
}
use browseterm_device_agent.Clients.Maker.{delete_container}
use browseterm_device_agent.Commands.Env.{
  Operation, create, delete, hibernate, resume, save, reconcile, other_operation, ExecuteCommand,
  Env, Handler, success, on_maker_error,
}
use browseterm_device_agent.Commands.Config.{
  place, missing_keys, config_or_empty, is_already_gone, maker_failure,
}
use browseterm_device_agent.Commands.Create as Create
use browseterm_device_agent.Commands.Create.{handle_create}
use browseterm_device_agent.Commands.Resume as Resume
use browseterm_device_agent.Commands.Resume.{handle_resume, no_saved_image}
use browseterm_device_agent.Commands.Delete.{
  delete_result, handle_delete, delete_in, deleted_reply, deletion_failed,
}
use browseterm_device_agent.Commands.Executor.{register}
use browseterm_device_agent.Commands.Typing.{
  of_text, of_object, no_fields, with_field, IsReply, succeeds, fails,
}
use browseterm_device_agent.Commands.Typing.Placed.{place-Gives}
use browseterm_device_agent.Commands.Typing.Hibernated.{save-IsReply, hibernate-IsReply}
use browseterm_device_agent.Main.{handlers}

module _ {W : Type 0} (env : Env W) (command : ExecuteCommand) where
  create-checked :
      (cfg : Json) (missing : List String)
      → Gives (IsReply create) (Create.check_missing env command cfg missing)
  unfolding place
  create-checked cfg [] s =
      place-Gives env (IsReply create) "image_name" cfg command (λ j h. succeeds h)
        (λ m. fails refl) s
  create-checked cfg (k ∷ ks) s = returns (fails refl)

  create-IsReply : Gives (IsReply create) (handle_create env command)
  unfolding handle_create
  create-IsReply = elim (Option-cases (loads command.container_config_json)) [
    | inl absent ↦ λ s. rw (handle_create, absent) (returns (fails refl))
    | inr (cfg, e) ↦ λ s.
        rw (handle_create, e)
          (Gives-bind {Q = Anything} (lift (missing_keys cfg Create.required))
            (Create.check_missing env command cfg) (λ t. Post-any _)
            (λ missing q. create-checked cfg missing) s)
  ]

  saved_image-checked :
      (cfg saved_image : Json)
      → Gives
          (IsReply resume)
          (if truthy saved_image then place env "saved_image" cfg command else pure no_saved_image)
  saved_image-checked cfg saved_image =
      Gives-if (place env "saved_image" cfg command) (pure no_saved_image) (truthy saved_image)
        (λ real.
          place-Gives env (IsReply resume) "saved_image" cfg command (λ j h. succeeds h)
            (λ m. fails refl))
        (λ absent s. returns (fails refl))

  resume-checked :
      (cfg : Json) (missing : List String)
      → Gives (IsReply resume) (Resume.check_missing env command cfg missing)
  unfolding place
  resume-checked cfg [] s =
      Gives-bind {Q = Anything} (lift (index cfg "saved_image"))
        (λ saved_image.
          if truthy saved_image then place env "saved_image" cfg command else pure no_saved_image)
        (λ t. Post-any _) (λ saved_image q. saved_image-checked cfg saved_image) s
  resume-checked cfg (k ∷ ks) s = returns (fails refl)

  resume-IsReply : Gives (IsReply resume) (handle_resume env command)
  unfolding handle_resume
  resume-IsReply = elim (Option-cases (loads command.container_config_json)) [
    | inl absent ↦ λ s. rw (handle_resume, absent) (returns (fails refl))
    | inr (cfg, e) ↦ λ s.
        rw (handle_resume, e)
          (Gives-bind {Q = Anything} (lift (missing_keys cfg Resume.required))
            (Resume.check_missing env command cfg) (λ t. Post-any _)
            (λ missing q. resume-checked cfg missing) s)
  ]

  deletion_failed-IsReply :
      (message : String) → Gives (IsReply delete) (deletion_failed env command message)
  deletion_failed-IsReply message =
      Gives-if (pure (success (delete_result command.container_id "already_deleted")))
        (pure (maker_failure message)) (is_already_gone message)
        (λ gone s.
          returns (succeeds (of_object (with_field of_text (with_field of_text no_fields)))))
        (λ other s. returns (fails refl))

  delete-IsReply : Gives (IsReply delete) (handle_delete env command)
  unfolding handle_delete
  delete-IsReply =
      Gives-bind {Q = Anything}
        (lift (get (config_or_empty command.container_config_json) "network_name" (str "")))
        (delete_in env command) (λ s. Post-any _)
        λ network_name q.
          Gives-handle {Q = Anything}
            (delete_container env.maker command.container_id network_name command.trace_id)
            (deleted_reply env command) (on_maker_error (deletion_failed env command))
            (λ s. Post-any _)
            (λ response r s.
              returns (succeeds (of_object (with_field of_text (with_field of_text no_fields)))))
            (Gives-on_maker_error (deletion_failed env command) deletion_failed-IsReply)

-- Whatever the command's configuration holds and the world answers: a reply of the handler that is
-- registered for an operation is either a success whose result has the type of that operation,
-- or a failure with a message and one of the error codes of that operation.
pub handlers-IsReply :
    {W : Type 0} (env : Env W) (operation : Operation) (handler : Handler W)
    → handlers env operation ≡ some handler
    → (command : ExecuteCommand) (w : W) → Post (IsReply operation) (handler command w).0
unfolding handlers register
handlers-IsReply env create handler h command w = ground (arith, create-IsReply env command w)
handlers-IsReply env delete handler h command w = ground (arith, delete-IsReply env command w)
handlers-IsReply env hibernate handler h command w = ground (arith, hibernate-IsReply env command w)
handlers-IsReply env resume handler h command w = ground (arith, resume-IsReply env command w)
handlers-IsReply env save handler h command w = ground (arith, save-IsReply env command w)
handlers-IsReply env reconcile handler h command w = ground arith
handlers-IsReply env (other_operation n) handler h command w = ground arith
