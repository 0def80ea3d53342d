-- ===== src/Commands/Resume.antt =====
-- commands/resume.py
use browseterm_device_agent.Prelude.{String, none, some, List, [], ◌∷◌, if◌then◌else◌}
use browseterm_device_agent.Json.{Json, loads, plain, truthy}
use browseterm_device_agent.Json.Access.{index}
use browseterm_device_agent.Effects.{Action, pure, lift, ◌>>=◌}
use browseterm_device_agent.Commands.Env.{ExecuteCommand, Env, Reply, failure}
use browseterm_device_agent.Commands.Config.{shared_keys, missing_keys, missing_message, place}

abbrev pub required : List String
required = "saved_image" ∷ shared_keys

abbrev pub no_saved_image : Reply
no_saved_image = failure "MISSING_SAVED_IMAGE" (plain "Container has no saved_image to resume from")

module _ {W : Type 0} (env : Env W) (command : ExecuteCommand) where
  abbrev pub check_missing : Json → List String → Action W Reply
  unfolding place
  check_missing cfg [] = do
    saved_image ← lift (index cfg "saved_image")
    if truthy saved_image then place env "saved_image" cfg command else pure no_saved_image
  check_missing cfg (k ∷ ks) = pure (failure "INVALID_CONFIG" (plain (missing_message (k ∷ ks))))

  abbrev pub with_config : Json → Action W Reply
  unfolding missing_keys place
  with_config cfg = do missing ← lift (missing_keys cfg required); check_missing cfg missing

  unfoldable pub handle_resume : Action W Reply
  unfolding missing_keys place
  handle_resume = elim (loads command.container_config_json) [
    | none ↦
        pure
          (failure "INVALID_CONFIG" (plain "container_config_json was missing or not valid JSON"))
    | some cfg ↦ with_config cfg
  ]
