-- ===== src/Commands/Config.antt =====
-- What the handlers of device_agent/commands share in reading `container_config_json`, and in
-- placing a container (create.py and resume.py, which differ in the key of the image).
use browseterm_device_agent.Prelude.{
  ℕ, String, Bool, false, ◌||◌, Option, none, some, List, [], ◌∷◌, ◌<>◌, if◌then◌else◌,
}
use browseterm_device_agent.Text.{take_chars, codes, lower, contains}
use browseterm_device_agent.Json.{
  Json, null, int, str, arr, obj, nil, cons, end, field, pos, JsonText, loads, plain,
}
use browseterm_device_agent.Json.Access.{get, has_key, index}
use browseterm_device_agent.Effects.{Action, Result, ok, pure, lift, handle, and_then, ◌>>=◌}
use browseterm_device_agent.Clients.Maker.{ContainerResponse, CreateArguments, create_container}
use browseterm_device_agent.Commands.Env.{
  ExecuteCommand, Env, Reply, success, failure, on_maker_error,
}
use browseterm_device_agent.Commands.Name.{strip_container_maker_suffix}

-- `json.loads(text) if text else {}`, and `{}` where that raises
abbrev pub config_or_empty : JsonText → Json
config_or_empty text = elim (loads text) [ none ↦ obj end | some cfg ↦ cfg ]

-- `_ALREADY_GONE_MARKERS`, the same in delete.py and hibernate.py
abbrev pub already_gone_markers : List String
already_gone_markers = "404" ∷ "not found" ∷ "notfound" ∷ []

abbrev pub any_in : (markers : List String) → List ℕ → Bool
any_in [] text = false
any_in (marker ∷ markers) text = contains (codes marker) text || any_in markers text

-- `any(marker in message.lower() for marker in _ALREADY_GONE_MARKERS)`
unfoldable pub is_already_gone : String → Bool
is_already_gone message = any_in already_gone_markers (lower (codes message))

-- The keys that both kinds of placement want beside that of the image.
abbrev pub shared_keys : List String
shared_keys =
    "container_name" ∷ "network_name" ∷ "cpu_request" ∷ "cpu_limit" ∷ "memory_request"
    ∷ "memory_limit" ∷ "ephemeral_request" ∷ "ephemeral_limit" ∷ []

-- `[k for k in required if k not in cfg]`
unfoldable pub missing_keys : Json → List String → Result (List String)
missing_keys cfg [] = ok []
missing_keys cfg (k ∷ ks) =
    let rest = missing_keys cfg ks in
    and_then (has_key cfg k)
      λ present. and_then rest λ missing. ok (if present then missing else k ∷ missing)

-- Python's text of a list of texts.
abbrev quoted : List String → String
quoted [] = ""
quoted (k ∷ []) = "'" <> (k <> "'")
quoted (k ∷ j ∷ ks) = "'" <> (k <> ("', " <> quoted (j ∷ ks)))

abbrev pub missing_message : List String → String
missing_message missing =
    "container_config_json missing required fields: [" <> (quoted missing <> "]")

-- The keyword arguments of the call of `create_container`.
unfoldable pub create_arguments :
    (image_key : String) (cfg : Json) (trace_id : String) → Result CreateArguments
create_arguments image_key cfg trace_id = and_then (index cfg image_key) λ image_name.
    and_then (index cfg "container_name") λ container_name.
      and_then (index cfg "network_name") λ network_name.
        and_then (get cfg "exposure_level" (int (pos 0))) λ exposure_level.
          and_then (get cfg "publish_information" (arr nil)) λ publish_information.
            and_then (get cfg "environment_variables" (obj end)) λ environment_variables.
              and_then (index cfg "cpu_request") λ cpu_request.
                and_then (index cfg "cpu_limit") λ cpu_limit.
                  and_then (index cfg "memory_request") λ memory_request.
                    and_then (index cfg "memory_limit") λ memory_limit.
                      and_then (index cfg "ephemeral_request") λ ephemeral_request.
                        and_then (index cfg "ephemeral_limit") λ ephemeral_limit.
                          and_then (get cfg "snapshot_size_limit" null) λ snapshot_size_limit.
                            ok (record {
                              image_name = image_name;
                              container_name = container_name;
                              network_name = network_name;
                              exposure_level = exposure_level;
                              publish_information = publish_information;
                              environment_variables = environment_variables;
                              cpu_request = cpu_request;
                              cpu_limit = cpu_limit;
                              memory_request = memory_request;
                              memory_limit = memory_limit;
                              ephemeral_request = ephemeral_request;
                              ephemeral_limit = ephemeral_limit;
                              snapshot_size_limit = snapshot_size_limit;
                              request_id = trace_id;
                            })

abbrev pub str_or_null : Option String → Json
str_or_null none = null
str_or_null (some s) = str s

abbrev pub resource : String → Json → Json
resource type name = obj (field "resource_type" (str type) (field "resource_name" name end))

-- The result of a placement. `network_name` is `cfg["network_name"]`.
unfoldable pub placement_result : (name : String) (network_name : Json) → ContainerResponse → Json
placement_result name network_name response = obj (
    field "kubernetes_id" (str response.container_id) (
      field "container_name" (str name) (
        field "ip_address" (str_or_null response.container_ip) (
          field "associated_resources"
            (arr (
              cons (resource "pod" (str response.container_name))
                (cons (resource "network" network_name) nil)))
            end))))

-- `(None, "CONTAINER_MAKER_ERROR", str(e)[:1000])`
abbrev pub maker_failure : String → Reply
maker_failure message = failure "CONTAINER_MAKER_ERROR" (plain (take_chars 1000 message))

module _ {W : Type 0} (env : Env W) where
  abbrev pub request_placement :
      (image_key : String) (cfg : Json) (command : ExecuteCommand) → Action W ContainerResponse
  request_placement image_key cfg command = do
    arguments ← lift (create_arguments image_key cfg command.trace_id)
    create_container env.maker arguments

  abbrev pub placed_reply : (cfg : Json) → ContainerResponse → Action W Reply
  placed_reply cfg response = do
    let name = strip_container_maker_suffix env.digit_beyond_ascii response.container_name
    network_name ← lift (index cfg "network_name")
    pure (success (placement_result name network_name response))

  abbrev pub placement_failed : (message : String) → Action W Reply
  placement_failed message = pure (maker_failure message)

  -- From the call of `create_container` to the end of the handler.
  unfoldable pub place :
      (image_key : String) (cfg : Json) (command : ExecuteCommand) → Action W Reply
  unfolding strip_container_maker_suffix create_arguments placement_result create_container
  place image_key cfg command =
      handle (request_placement image_key cfg command) (placed_reply cfg)
        (on_maker_error placement_failed)
