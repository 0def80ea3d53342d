-- ===== src/Commands/Placing.antt =====
-- What a create or a resume has done when it replies.
pub mod Asked
use browseterm_device_agent.Prelude.{
  String, ◌≡◌, refl, Bool, true, false, none, some, List, [], ◌∷◌, All, if◌then◌else◌, arith, inl,
  inr, Option-cases, Bool-cases,
}
use browseterm_device_agent.Json.{
  Json, null, str, arr, obj, cons, nil, field, end, plain, loads, truthy,
}
use browseterm_device_agent.Json.Access.{index, has_key}
use browseterm_device_agent.Effects.{Result, and_then, ok, err, Exc, maker_error, Result-cases}
use browseterm_device_agent.Clients.Maker.{ContainerResponse}
use browseterm_device_agent.Commands.Env.{ExecuteCommand, Env, Reply, success}
use browseterm_device_agent.Commands.Name.{strip_container_maker_suffix}
use browseterm_device_agent.Text.{take_chars}
use browseterm_device_agent.Commands.Placing.Asked.{Answer, Failure, Ended, request_placement-Ended}
use browseterm_device_agent.Commands.Config.{missing_keys, place, request_placement}
use browseterm_device_agent.Commands.Create as Create
use browseterm_device_agent.Commands.Create.{handle_create}
use browseterm_device_agent.Commands.Resume as Resume
use browseterm_device_agent.Commands.Resume.{handle_resume}

-- The keys that a configuration has to have.
abbrev pub wanted : (image_key : String) → List String
wanted image_key =
    image_key ∷ "container_name" ∷ "network_name" ∷ "cpu_request" ∷ "cpu_limit" ∷ "memory_request"
    ∷ "memory_limit" ∷ "ephemeral_request" ∷ "ephemeral_limit" ∷ []

-- The result that names what Container Maker has answered: the container without the suffix of its
-- pod, the pod by its whole name, and the address only if there is one.
abbrev pub named_result : (name : String) (network_name : Json) → ContainerResponse → Json
named_result name network_name response = obj (
    field "kubernetes_id" (str response.container_id) (
      field "container_name" (str name) (
        field "ip_address" (elim response.container_ip [ none ↦ null | some ip ↦ str ip ])
          (field "associated_resources"
            (arr (
              cons
                (obj (
                  field "resource_type" (str "pod")
                    (field "resource_name" (str response.container_name) end)))
                (cons
                  (obj (
                    field "resource_type" (str "network") (field "resource_name" network_name end)))
                  nil)))
            end))))

-- The configuration of the command can be read and has all its keys.
pub record Configured (image_key : String) (command : ExecuteCommand) (cfg : Json) : Type 0 where
  pub loaded : loads command.container_config_json ≡ some cfg
  pub complete : All (λ k. has_key cfg k ≡ ok true) (wanted image_key)

-- Container Maker has answered the request for the configuration, and the reply names what it
-- answered.
pub record Placed {W : Type 0} (env : Env W) (image_key : String) (command : ExecuteCommand)
    (reply : Reply) : Type 0 where
  pub cfg : Json
  pub configured : Configured image_key command cfg
  pub response : ContainerResponse
  pub answer : Answer env image_key cfg command (ok response)
  pub network_name : Json
  pub named : index cfg "network_name" ≡ ok network_name
  pub replied :
      reply
      ≡ success (
          named_result
            (strip_container_maker_suffix env.digit_beyond_ascii response.container_name)
            network_name
            response)

-- The request for the configuration was answered by an exception, and the reply has its text.
pub record Failed {W : Type 0} (env : Env W) (image_key : String) (command : ExecuteCommand)
    (reply : Reply) : Type 0 where
  pub cfg : Json
  pub configured : Configured image_key command cfg
  pub message : String
  pub failure : Failure env image_key cfg command message
  pub replied : reply ≡ record {
    result = none;
    error_code = some "CONTAINER_MAKER_ERROR";
    error_message = some (plain (take_chars 1000 message));
  }

-- How a reply has come about: a success is that of a placement, a refusal has changed nothing, and
-- otherwise Container Maker was asked and failed.
pub data IsPlacement {W : Type 0} (env : Env W) (image_key : String) (command : ExecuteCommand)
    (w : W) (reply : Reply) (after : W) : Type 0 where
  placed : Placed env image_key command reply → IsPlacement env image_key command w reply after
  refused :
      (code : String)
      → reply.error_code ≡ some code
      → after ≡ w
      → IsPlacement env image_key command w reply after
  failed : Failed env image_key command reply → IsPlacement env image_key command w reply after

missing-cons :
    (present : Result Bool) (k : String) (missing : Result (List String))
    → (and_then present λ p. and_then missing λ ms. ok (if p then ms else k ∷ ms)) ≡ ok []
    → (present ≡ ok true) × (missing ≡ ok [])
missing-cons (ok true) k (ok []) e = (refl, refl)
missing-cons (ok true) k (ok (m ∷ ms)) e = absurd (cc)
missing-cons (ok false) k (ok ms) e = absurd (cc)
missing-cons (ok p) k (err x) e = absurd (cc)
missing-cons (err x) k missing e = absurd (cc)

missing_keys-All :
    (cfg : Json) (ks : List String)
    → missing_keys cfg ks ≡ ok []
    → All (λ k. has_key cfg k ≡ ok true) ks
unfolding missing_keys
missing_keys-All cfg [] e = tt
missing_keys-All cfg (k ∷ ks) e =
    let (here, rest) = missing-cons (has_key cfg k) k (missing_keys cfg ks) e in
    (here, missing_keys-All cfg ks rest)

module _ {W : Type 0} (env : Env W) (command : ExecuteCommand) (w : W) where
  module _ (image_key : String) (cfg : Json) (reply : Reply)
      (replied : (place env image_key cfg command w).0 ≡ ok reply)
      (configured : Configured image_key command cfg) where
    -- The call has raised.
    place-Failed :
        (x : Exc)
        → (request_placement env image_key cfg command w).0 ≡ err x
        → Ended env image_key cfg command (err x)
        → Failed env image_key command reply
    unfolding place
    place-Failed (maker_error message) h ended = record {
      cfg = cfg;
      configured = configured;
      message = message;
      failure = ended;
      replied = ground (arith, h, replied);
    }
    place-Failed _ h ended = absurd (ground (arith, h, replied))

    place-Placed :
        (response : ContainerResponse)
        → (request_placement env image_key cfg command w).0 ≡ ok response
        → Answer env image_key cfg command (ok response)
        → Placed env image_key command reply
    unfolding place
    place-Placed response h answer = elim (Result-cases (index cfg "network_name")) [
      | inl (network_name, k) ↦ record {
        cfg = cfg;
        configured = configured;
        response = response;
        answer = answer;
        network_name = network_name;
        named = k;
        replied = ground (arith, h, k, replied);
      }
      | inr (x, k) ↦ absurd (ground (arith, h, k, replied))
    ]

    place-IsPlacement : (after : W) → IsPlacement env image_key command w reply after
    place-IsPlacement after =
        let ended = request_placement-Ended env image_key cfg command w in
        elim (Result-cases (request_placement env image_key cfg command w).0) [
          | inr (x, h) ↦ failed (place-Failed x h (rw h at ended))
          | inl (response, h) ↦ placed (place-Placed response h (rw h at ended))
        ]

  create-checked :
      (cfg : Json) (missing : List String) (reply : Reply)
      → loads command.container_config_json ≡ some cfg
      → missing_keys cfg Create.required ≡ ok missing
      → (Create.check_missing env command cfg missing w).0 ≡ ok reply
      → IsPlacement env "image_name" command w reply
          (Create.check_missing env command cfg missing w).1
  unfolding place
  create-checked cfg [] reply l m h =
      place-IsPlacement "image_name" cfg reply h
        (record { loaded = l; complete = missing_keys-All cfg Create.required m }) _
  create-checked cfg (k ∷ ks) reply l m h = refused "INVALID_CONFIG" (ground arith) refl

  create-IsPlacement :
      (reply : Reply)
      → (handle_create env command w).0 ≡ ok reply
      → IsPlacement env "image_name" command w reply (handle_create env command w).1
  unfolding handle_create
  create-IsPlacement reply h = elim (Option-cases (loads command.container_config_json)) [
    | inl absent ↦ refused "INVALID_CONFIG" (ground arith) (ground arith)
    | inr (cfg, l) ↦ elim (Result-cases (missing_keys cfg Create.required)) [
      | inl (missing, m) ↦
          rw (handle_create, l, m)
            (create-checked cfg missing reply l m (rw (handle_create, l, m) at h))
      | inr (x, m) ↦ absurd (ground arith)
    ]
  ]

  saved_image-checked :
      (cfg saved_image : Json) (reply : Reply)
      → loads command.container_config_json ≡ some cfg
      → missing_keys cfg Resume.required ≡ ok []
      → index cfg "saved_image" ≡ ok saved_image
      → (Resume.check_missing env command cfg [] w).0 ≡ ok reply
      → IsPlacement env "saved_image" command w reply (Resume.check_missing env command cfg [] w).1
  unfolding place
  saved_image-checked cfg saved_image reply l m i h = elim (Bool-cases (truthy saved_image)) [
    | inl real ↦
        place-IsPlacement "saved_image" cfg reply (ground (arith, h))
          (record { loaded = l; complete = missing_keys-All cfg Resume.required m }) _
    | inr absent ↦ refused "MISSING_SAVED_IMAGE" (ground (arith, h)) (ground arith)
  ]

  resume-checked :
      (cfg : Json) (missing : List String) (reply : Reply)
      → loads command.container_config_json ≡ some cfg
      → missing_keys cfg Resume.required ≡ ok missing
      → (Resume.check_missing env command cfg missing w).0 ≡ ok reply
      → IsPlacement env "saved_image" command w reply
          (Resume.check_missing env command cfg missing w).1
  unfolding place
  resume-checked cfg [] reply l m h = elim (Result-cases (index cfg "saved_image")) [
    | inl (saved_image, i) ↦ saved_image-checked cfg saved_image reply l m i h
    | inr (x, i) ↦ absurd (ground (arith, h))
  ]
  resume-checked cfg (k ∷ ks) reply l m h = refused "INVALID_CONFIG" (ground arith) refl

  resume-IsPlacement :
      (reply : Reply)
      → (handle_resume env command w).0 ≡ ok reply
      → IsPlacement env "saved_image" command w reply (handle_resume env command w).1
  unfolding handle_resume
  resume-IsPlacement reply h = elim (Option-cases (loads command.container_config_json)) [
    | inl absent ↦ refused "INVALID_CONFIG" (ground arith) (ground arith)
    | inr (cfg, l) ↦ elim (Result-cases (missing_keys cfg Resume.required)) [
      | inl (missing, m) ↦
          rw (handle_resume, l, m)
            (resume-checked cfg missing reply l m (rw (handle_resume, l, m) at h))
      | inr (x, m) ↦ absurd (ground arith)
    ]
  ]

  -- If a create and a resume return a reply, then it is of one of three kinds. A success: the
  -- configuration could be read and had every required key, Container Maker was sent a request
  -- with each field from its own key or default, with the command's trace id, and answered it, and
  -- the result has its container id, its name without the suffix, its address and its whole pod
  -- name. A refusal: a failure that leaves the outside world as it was. Or CONTAINER_MAKER_ERROR:
  -- such a request was answered by an exception, whose text the message has, up to its 1000th
  -- character.
  pub placements-IsPlacement :
      (created resumed : Reply)
      → (handle_create env command w).0 ≡ ok created
      → (handle_resume env command w).0 ≡ ok resumed
      → IsPlacement env "image_name" command w created (handle_create env command w).1
        × IsPlacement env "saved_image" command w resumed (handle_resume env command w).1
  placements-IsPlacement created resumed c r =
      (create-IsPlacement created c, resume-IsPlacement resumed r)
