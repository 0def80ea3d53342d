-- ===== src/Commands/Typing.antt =====
-- The shapes of what the handlers of device_agent/commands reply: a type for JSON values, the type
-- of each operation's result, and the error codes of each operation.
pub mod Placed
pub mod Saved
pub mod Hibernated
pub mod Replies
pub mod Rows
use browseterm_device_agent.Prelude.{String, ◌≡◌, refl, true, List, [], ◌∷◌, member}
use browseterm_device_agent.Json.{
  Json, null, str, arr, obj, Items, nil, cons, Fields, end, field, Payload, truthy,
}
use browseterm_device_agent.Commands.Env.{
  Operation, create, delete, hibernate, resume, save, reconcile, other_operation, Reply, success,
  failure,
}

-- `real` is a value that is true for Python, `nullable` is `None` too, and no value is of `never`.
mutual
  pub data Ty : Type 0 where
    any never text real : Ty
    nullable : Ty → Ty
    list_of : Ty → Ty
    object : Schema → Ty
    either : Ty → Ty → Ty

  pub data Schema : Type 0 where
    closed : Schema
    has : String → Ty → Schema → Schema

mutual
  pub data HasType : Json → Ty → Type 0 where
    of_any : {j : Json} → HasType j any
    of_text : {s : String} → HasType (str s) text
    of_real : {j : Json} → truthy j ≡ true → HasType j real
    of_null : {τ : Ty} → HasType null (nullable τ)
    of_present : {j : Json} {τ : Ty} → HasType j τ → HasType j (nullable τ)
    of_list : {xs : Items} {τ : Ty} → Members xs τ → HasType (arr xs) (list_of τ)
    of_object : {fs : Fields} {σ : Schema} → Matches fs σ → HasType (obj fs) (object σ)
    of_left : {j : Json} {τ υ : Ty} → HasType j τ → HasType j (either τ υ)
    of_right : {j : Json} {τ υ : Ty} → HasType j υ → HasType j (either τ υ)

  pub data Members : Items → Ty → Type 0 where
    no_more : {τ : Ty} → Members nil τ
    more : {j : Json} {xs : Items} {τ : Ty} → HasType j τ → Members xs τ → Members (cons j xs) τ

  pub data Matches : Fields → Schema → Type 0 where
    no_fields : Matches end closed
    with_field :
        {k : String} {j : Json} {fs : Fields} {τ : Ty} {σ : Schema}
        → HasType j τ
        → Matches fs σ
        → Matches (field k j fs) (has k τ σ)

abbrev pub resource_type : Ty
resource_type = object (has "resource_type" text (has "resource_name" any closed))

-- The name of the network is the configuration's, of whatever type.
abbrev pub placement_type : Ty
placement_type = object (
    has "kubernetes_id" text (
      has "container_name" text (
        has "ip_address" (nullable text)
          (has "associated_resources" (list_of resource_type) closed))))

abbrev pub deletion_type : Ty
deletion_type = object (has "container_id" text (has "status" text closed))

abbrev pub save_type : Ty
save_type = object (has "saved_image" real (has "pod_name" text (has "namespace" text closed)))

-- The result of a successful command. A hibernation that saves nothing has the empty result.
abbrev pub result_type : Operation → Ty
result_type create = placement_type
result_type resume = placement_type
result_type delete = deletion_type
result_type save = save_type
result_type hibernate = either (object closed) save_type
result_type _ = never

-- The codes of a command that its handler refuses or fails.
abbrev pub error_codes : Operation → List String
error_codes create = "INVALID_CONFIG" ∷ "CONTAINER_MAKER_ERROR" ∷ []
error_codes resume = "INVALID_CONFIG" ∷ "MISSING_SAVED_IMAGE" ∷ "CONTAINER_MAKER_ERROR" ∷ []
error_codes delete = "CONTAINER_MAKER_ERROR" ∷ []
error_codes save = "SNAPSHOT_TIMED_OUT" ∷ "SNAPSHOT_FAILED" ∷ []
error_codes hibernate =
    "SNAPSHOT_TIMED_OUT" ∷ "SNAPSHOT_FAILED" ∷ "POD_DELETE_FAILED" ∷ "POD_DELETE_FAILED_AFTER_SAVE"
    ∷ []
error_codes _ = []

-- A reply is either a result of the operation's type, or one of its error codes with a message.
pub data IsReply (o : Operation) : Reply → Type 0 where
  succeeds : {j : Json} → HasType j (result_type o) → IsReply o (success j)
  fails :
      {code : String} {message : Payload}
      → member code (error_codes o) ≡ true
      → IsReply o (failure code message)
