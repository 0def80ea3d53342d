-- ===== src/Commands/Ends.antt =====
-- The handlers of device_agent/commands that place or delete come to an end, whatever the command.
pub mod Saving
use browseterm_device_agent.Prelude.{
  ℕ, ◌+◌, ◌≤◌, String, ◌≡◌, ◌≢◌, refl, Option, none, some, List, [], ◌∷◌, arith, inl, inr, Bool,
  true, false, Bool-cases, Option-cases,
}
use browseterm_device_agent.Json.{Json, null, str, int, pos, arr, obj, nil, end, loads, truthy}
use browseterm_device_agent.Json.Access.{get, has_key, index, slice}
use browseterm_device_agent.Effects.{
  Action, Result, ok, err, Exc, stuck, other, maker_error, pure, raise, lift, handle, and_then,
  ◌>>=◌, Result-cases,
}
use browseterm_device_agent.Effects.Ends.{
  IsDone, HasEnd, and_then-IsDone, bind-HasEnd, handle-HasEnd,
}
use browseterm_device_agent.Clients.Maker.{
  MakerApi, DeleteContainerResponse, CreateArguments, SavedPod, ContainerResponse, create_container,
  delete_container, save_container,
}
use browseterm_device_agent.Clients.Maker.Ends.{
  IsAnswering, get-IsDone, create_container-HasEnd, delete_container-HasEnd, save_container-HasEnd,
}
use browseterm_device_agent.Commands.Env.{ExecuteCommand, Env, Reply, on_maker_error}
use browseterm_device_agent.Commands.Config.{
  config_or_empty, shared_keys, missing_keys, missing_message, create_arguments, place,
  is_already_gone,
}
use browseterm_device_agent.Commands.Create
use browseterm_device_agent.Commands.Create.{handle_create}
use browseterm_device_agent.Commands.Resume
use browseterm_device_agent.Commands.Resume.{handle_resume}
use browseterm_device_agent.Commands.Delete.{handle_delete}
use browseterm_device_agent.Commands.Save.{
  SaveOutcome, save_error, poll, watch, perform_save, save_failure, handle_save,
}
use browseterm_device_agent.Commands.Save.Polling.{IsLive, poll-terminates}
use browseterm_device_agent.Commands.Hibernate.{handle_hibernate, delete_unsaved, delete_saved}

index-IsDone : (j : Json) (k : String) → IsDone (index j k)
unfolding index
index-IsDone (obj fs) k = ground arith
index-IsDone (arr xs) k = λ s. cc
index-IsDone (str t) k = λ s. cc
index-IsDone _ k = λ s. cc

has_key-IsDone : (j : Json) (k : String) → IsDone (has_key j k)
unfolding has_key
has_key-IsDone (obj fs) k = λ s. cc
has_key-IsDone (arr xs) k = λ s. cc
has_key-IsDone (str t) k = λ s. cc
has_key-IsDone _ k = λ s. cc

missing_keys-IsDone : (cfg : Json) (ks : List String) → IsDone (missing_keys cfg ks)
unfolding missing_keys
missing_keys-IsDone cfg [] = λ s. cc
missing_keys-IsDone cfg (k ∷ ks) = ground (arith, has_key-IsDone cfg k, missing_keys-IsDone cfg ks)

create_arguments-IsDone :
    (image_key : String) (cfg : Json) (trace_id : String)
    → IsDone (create_arguments image_key cfg trace_id)
unfolding create_arguments
create_arguments-IsDone image_key cfg trace_id = ground (
  arith,
  index-IsDone cfg image_key,
  index-IsDone cfg "container_name",
  index-IsDone cfg "network_name",
  get-IsDone cfg "exposure_level" (int (pos 0)),
  get-IsDone cfg "publish_information" (arr nil),
  get-IsDone cfg "environment_variables" (obj end),
  index-IsDone cfg "cpu_request",
  index-IsDone cfg "cpu_limit",
  index-IsDone cfg "memory_request",
  index-IsDone cfg "memory_limit",
  index-IsDone cfg "ephemeral_request",
  index-IsDone cfg "ephemeral_limit",
  get-IsDone cfg "snapshot_size_limit" null,
)

on_maker_error-HasEnd :
    {W A : Type 0} (f : String → Action W A) (e : Exc)
    → ((message : String) → HasEnd (f message))
    → e ≢ stuck
    → HasEnd (on_maker_error f e)
on_maker_error-HasEnd f (maker_error message) h alive w = h message w
on_maker_error-HasEnd f _ h alive w = λ s. alive (cc)

-- What is assumed of the outside world: every call comes to an end, the clock does not go back, and
-- a sleep takes a millisecond at least.
pub record Live {W : Type 0} (env : Env W) : Type 0 where
  pub maker : IsAnswering env.maker
  pub cloud : IsLive env

module _ {W : Type 0} (env : Env W) (live : Live env) where
  place-after :
      (image_key : String) (cfg : Json) (command : ExecuteCommand) (a : CreateArguments) (w : W)
      (r : Result ContainerResponse)
      → create_arguments image_key cfg command.trace_id ≡ ok a
      → (create_container env.maker a w).0 ≡ r
      → (place env image_key cfg command w).0 ≢ err stuck
  unfolding place
  place-after image_key cfg command a w (ok response) e h =
      ground (arith, index-IsDone cfg "network_name")
  place-after image_key cfg command a w (err (maker_error message)) e h = ground arith
  place-after image_key cfg command a w (err _) e h =
      ground (arith, create_container-HasEnd env.maker live.maker a w)

  place-refused :
      (image_key : String) (cfg : Json) (command : ExecuteCommand) (w : W) (x : Exc)
      → create_arguments image_key cfg command.trace_id ≡ err x
      → (place env image_key cfg command w).0 ≢ err stuck
  unfolding place
  place-refused image_key cfg command w (maker_error message) e = ground arith
  place-refused image_key cfg command w _ e =
      ground (arith, create_arguments-IsDone image_key cfg command.trace_id)

  place-HasEnd :
      (image_key : String) (cfg : Json) (command : ExecuteCommand)
      → HasEnd (place env image_key cfg command)
  place-HasEnd image_key cfg command w =
      elim (Result-cases (create_arguments image_key cfg command.trace_id)) [
        | inl (a, e) ↦ place-after image_key cfg command a w _ e refl
        | inr (x, e) ↦ place-refused image_key cfg command w x e
      ]

  module _ (command : ExecuteCommand) (w : W) where
    abbrev config : Json
    config = config_or_empty command.container_config_json

    delete-after :
        (n : Json) (r : Result DeleteContainerResponse)
        → get config "network_name" (str "") ≡ ok n
        → (delete_container env.maker command.container_id n command.trace_id w).0 ≡ r
        → (handle_delete env command w).0 ≢ err stuck
    unfolding handle_delete
    delete-after n (ok response) e h = ground arith
    delete-after n (err (maker_error message)) e h = ground arith
    delete-after n (err _) e h = ground (
      arith,
      delete_container-HasEnd env.maker live.maker command.container_id n command.trace_id w,
    )

    pub delete-HasEnd : (handle_delete env command w).0 ≢ err stuck
    delete-HasEnd = elim (Result-cases (get config "network_name" (str ""))) [
      | inl (n, e) ↦ delete-after n _ e refl
      | inr (x, e) ↦
          unfold handle_delete in ground (arith, get-IsDone config "network_name" (str ""))
    ]

    check_create :
        (cfg : Json) (missing : List String)
        → (Create.check_missing env command cfg missing w).0 ≢ err stuck
    unfolding place
    check_create cfg [] = place-HasEnd "image_name" cfg command w
    check_create cfg (k ∷ ks) = λ s. cc

    pub create-HasEnd : (handle_create env command w).0 ≢ err stuck
    unfolding handle_create
    create-HasEnd = elim (Option-cases (loads command.container_config_json)) [
      | inl absent ↦ ground arith
      | inr (cfg, e) ↦ elim (Result-cases (missing_keys cfg Create.required)) [
        | inl (missing, m) ↦ ground (arith, check_create cfg missing)
        | inr (x, m) ↦ ground (arith, missing_keys-IsDone cfg Create.required)
      ]
    ]

    check_resume :
        (cfg : Json) (missing : List String)
        → (Resume.check_missing env command cfg missing w).0 ≢ err stuck
    unfolding place
    check_resume cfg [] =
        ground (arith, index-IsDone cfg "saved_image", place-HasEnd "saved_image" cfg command w)
    check_resume cfg (k ∷ ks) = λ s. cc

    pub resume-HasEnd : (handle_resume env command w).0 ≢ err stuck
    unfolding handle_resume
    resume-HasEnd = elim (Option-cases (loads command.container_config_json)) [
      | inl absent ↦ ground arith
      | inr (cfg, e) ↦ elim (Result-cases (missing_keys cfg Resume.required)) [
        | inl (missing, m) ↦ ground (arith, check_resume cfg missing)
        | inr (x, m) ↦ ground (arith, missing_keys-IsDone cfg Resume.required)
      ]
    ]
