-- ===== src/Commands/Typing/Placed.antt =====
-- What a placement replies, in commands/create.py and commands/resume.py.
use browseterm_device_agent.Prelude.{String, Option, none, some}
use browseterm_device_agent.Json.{Json}
use browseterm_device_agent.Json.Access.{index}
use browseterm_device_agent.Effects.{pure, lift}
use browseterm_device_agent.Effects.Post.{
  returns, Gives, Anything, Post-any, Gives-on_maker_error, Gives-bind, Gives-handle,
}
use browseterm_device_agent.Clients.Maker.{ContainerResponse}
use browseterm_device_agent.Commands.Env.{ExecuteCommand, Env, Reply, success, on_maker_error}
use browseterm_device_agent.Commands.Config.{
  str_or_null, resource, place, placement_result, request_placement, placed_reply, placement_failed,
  maker_failure,
}
use browseterm_device_agent.Commands.Name.{strip_container_maker_suffix}
use browseterm_device_agent.Commands.Typing.{
  text, nullable, object, closed, has, Ty, HasType, of_any, of_text, of_null, of_present, of_list,
  of_object, no_more, more, no_fields, with_field, placement_type,
}

str_or_null-HasType : (s : Option String) → HasType (str_or_null s) (nullable text)
str_or_null-HasType none = of_null
str_or_null-HasType (some s) = of_present of_text

resource-HasType :
    (kind : String) (name : Json) {τ : Ty}
    → HasType name τ
    → HasType
        (resource kind name)
        (object (has "resource_type" text (has "resource_name" τ closed)))
resource-HasType kind name h = of_object (with_field of_text (with_field h no_fields))

placement_result-HasType :
    (name : String) (network_name : Json) (response : ContainerResponse)
    → HasType (placement_result name network_name response) placement_type
unfolding placement_result
placement_result-HasType name network_name response = of_object (
    with_field of_text (
      with_field of_text (
        with_field (str_or_null-HasType response.container_ip) (
          with_field
            (of_list (
              more (resource-HasType "pod" _ of_any)
                (more (resource-HasType "network" network_name of_any) no_more)))
            no_fields))))

module _ {W : Type 0} (env : Env W) where
  placed_reply-Gives :
      (P : Reply → Type 0) (cfg : Json) (response : ContainerResponse)
      → ((j : Json) → HasType j placement_type → P (success j))
      → Gives P (placed_reply env cfg response)
  placed_reply-Gives P cfg response good =
      Gives-bind {Q = Anything} (lift (index cfg "network_name"))
        (λ network_name. pure (
          success (
            placement_result
              (strip_container_maker_suffix env.digit_beyond_ascii response.container_name)
              network_name response)))
        (λ s. Post-any _)
        λ network_name q s. returns (good _ (placement_result-HasType _ network_name response))

  pub place-Gives :
      (P : Reply → Type 0) (image_key : String) (cfg : Json) (command : ExecuteCommand)
      → ((j : Json) → HasType j placement_type → P (success j))
      → ((message : String) → P (maker_failure message))
      → Gives P (place env image_key cfg command)
  unfolding place
  place-Gives P image_key cfg command good bad =
      Gives-handle {Q = Anything} (request_placement env image_key cfg command)
        (placed_reply env cfg) (on_maker_error (placement_failed env)) (λ s. Post-any _)
        (λ response q. placed_reply-Gives P cfg response good)
        (Gives-on_maker_error (placement_failed env) λ message s. returns (bad message))
