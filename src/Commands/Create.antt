-- ===== src/Commands/Create.antt =====
-- commands/create.py
use browseterm_device_agent.Prelude.{String, none, some, List, [], ◌∷◌}
use browseterm_device_agent.Json.{Json, loads, plain}
use browseterm_device_agent.Effects.{Action, pure, lift, ◌>>=◌}
use browseterm_device_agent.Commands.Env.{ExecuteCommand, Env, Reply, failure}
use browseterm_device_agent.Commands.Config.{shared_keys, missing_keys, missing_message, place}

abbrev pub invalid_json : Reply
invalid_json =
    failure "INVALID_CONFIG" (plain "container_config_json was missing or not valid JSON")

abbrev pub required : List String
required = "image_name" ∷ shared_keys

module _ {W : Type 0} (env : Env W) (command : ExecuteCommand) where
  abbrev pub check_missing : Json → List String → Action W Reply
  unfolding place
  check_missing cfg [] = place env "image_name" cfg command
  check_missing cfg (k ∷ ks) = pure (failure "INVALID_CONFIG" (plain (missing_message (k ∷ ks))))

  abbrev pub with_config : Json → Action W Reply
  unfolding missing_keys place
  with_config cfg = do missing ← lift (missing_keys cfg required); check_missing cfg missing

  unfoldable pub handle_create : Action W Reply
  unfolding missing_keys place
  handle_create = elim (loads command.container_config_json) [
    | none ↦ pure invalid_json
    | some cfg ↦ with_config cfg
  ]
