-- ===== src/Commands/Placing/Asked.antt =====
-- What a create and a resume ask of Container Maker, said without the code that builds the request:
-- each field of the request by the key of the configuration that it comes from.
use browseterm_device_agent.Prelude.{
  String, ◌≡◌, refl, ap, sym, ◌∙◌, Option, none, some, List, [], ◌∷◌, ◌<>◌, arith, inl, inr,
}
use browseterm_device_agent.Json.{Json, null, int, str, arr, obj, nil, end, pos, lookup_field}
use browseterm_device_agent.Json.Access.{get, index, or_key_error, iterate}
use browseterm_device_agent.Effects.{
  Action, Result, ok, err, Exc, other, maker_error, rpc_error, and_then, handle, pure, ◌>>◌,
  Result-cases,
}
use browseterm_device_agent.Clients.Retry.{call_with_retry}
use browseterm_device_agent.Clients.Retry.Outcome.{call_with_retry-all}
use browseterm_device_agent.Clients.Maker.{
  PublishInformation, CreateContainerRequest, ContainerResponse, CreateArguments, publish_of,
  publish_all, build_create, create_container, default_policy, is_retryable, wrap, accept,
}
use browseterm_device_agent.Commands.Env.{ExecuteCommand, Env}
use browseterm_device_agent.Commands.Config.{create_arguments, request_placement}

-- A port that is published, with the defaults of what its entry does not say.
pub record IsPublished (entry : Json) (port : PublishInformation) : Type 0 where
  pub publish_port : get entry "publish_port" (int (pos 2222)) ≡ ok port.publish_port
  pub target_port : get entry "target_port" (int (pos 22)) ≡ ok port.target_port
  pub protocol : get entry "protocol" (str "TCP") ≡ ok port.protocol
  pub node_port : get entry "node_port" null ≡ ok port.node_port

abbrev pub ArePublished : List Json → List PublishInformation → Type 0
ArePublished [] [] = Unit
ArePublished (entry ∷ entries) (port ∷ ports) = IsPublished entry port × ArePublished entries ports
ArePublished _ _ = ⊥

-- The request for a configuration, whose image stands under `image_key`.
pub record IsAsked (image_key : String) (cfg : Json) (request : CreateContainerRequest)
    : Type 0 where
  pub image_name : index cfg image_key ≡ ok request.image_name
  pub container_name : index cfg "container_name" ≡ ok request.container_name
  pub network_name : index cfg "network_name" ≡ ok request.network_name
  pub exposure_level : get cfg "exposure_level" (int (pos 0)) ≡ ok request.exposure_level
  pub information : Json
  pub given : get cfg "publish_information" (arr nil) ≡ ok information
  pub entries : List Json
  pub listed : iterate information ≡ ok entries
  pub published : ArePublished entries request.publish_information
  pub environment_variables :
      get cfg "environment_variables" (obj end) ≡ ok request.environment_variables
  pub cpu_request : index cfg "cpu_request" ≡ ok request.cpu_request
  pub cpu_limit : index cfg "cpu_limit" ≡ ok request.cpu_limit
  pub memory_request : index cfg "memory_request" ≡ ok request.memory_request
  pub memory_limit : index cfg "memory_limit" ≡ ok request.memory_limit
  pub ephemeral_request : index cfg "ephemeral_request" ≡ ok request.ephemeral_request
  pub ephemeral_limit : index cfg "ephemeral_limit" ≡ ok request.ephemeral_limit
  pub snapshot_size_limit : get cfg "snapshot_size_limit" null ≡ ok request.snapshot_size_limit

-- What is read of a configuration is so, or the exception is not Container Maker's.
data Reads {A : Type 0} (P : A → Type 0) : Result A → Type 0 where
  reads : {a : A} → P a → Reads P (ok a)
  refuses : {message : String} → Reads P (err (other message))

abbrev Value : {A : Type 0} → A → Type 0
Value a = Unit

refused : {A B : Type 0} {P : B → Type 0} {e : Exc} → Reads {A = A} Value (err e) → Reads P (err e)
refused refuses = refuses

Reads-and_then :
    {A B : Type 0} {P : B → Type 0} (r : Result A) (f : A → Result B)
    → Reads Value r
    → ((a : A) → r ≡ ok a → Reads P (f a))
    → Reads P (and_then r f)
Reads-and_then (ok a) f (reads p) k = k a refl
Reads-and_then (err e) f read k = refused read

Reads-value : {A : Type 0} {P : A → Type 0} {r : Result A} → Reads P r → Reads Value r
Reads-value (reads p) = reads tt
Reads-value refuses = refuses

of_reads : {A : Type 0} {P : A → Type 0} {a : A} → Reads P (ok a) → P a
of_reads (reads p) = p

or_key_error-Reads : (v : Option Json) (k : String) → Reads Value (or_key_error v k)
or_key_error-Reads none k = refuses
or_key_error-Reads (some v) k = reads tt

index-Reads : (j : Json) (k : String) → Reads Value (index j k)
unfolding index
index-Reads (obj fs) k = or_key_error-Reads (lookup_field k fs) k
index-Reads (arr xs) k = refuses
index-Reads (str s) k = refuses
index-Reads _ k = refuses

get-Reads : (j : Json) (k : String) (d : Json) → Reads Value (get j k d)
unfolding get
get-Reads (obj fs) k d = reads tt
get-Reads _ k d = refuses

iterate-Reads : (j : Json) → Reads Value (iterate j)
unfolding iterate
iterate-Reads (arr xs) = reads tt
iterate-Reads (obj fs) = reads tt
iterate-Reads (str s) = reads tt
iterate-Reads _ = refuses

publish_of-Reads : (entry : Json) → Reads (IsPublished entry) (publish_of entry)
unfolding publish_of
publish_of-Reads entry = Reads-and_then _ _ (get-Reads entry _ _) λ a p.
    Reads-and_then _ _ (get-Reads entry _ _) λ b q. Reads-and_then _ _ (get-Reads entry _ _) λ c r.
      Reads-and_then _ _ (get-Reads entry _ _)
        λ d t. reads (record { publish_port = p; target_port = q; protocol = r; node_port = t })

publish_of-value : (entry : Json) → Reads Value (publish_of entry)
publish_of-value entry = Reads-value (publish_of-Reads entry)

publish_all-Reads : (entries : List Json) → Reads (ArePublished entries) (publish_all entries)
unfolding publish_all
publish_all-Reads [] = reads tt
publish_all-Reads (entry ∷ entries) =
    let each = publish_of-Reads entry in
    let rest = publish_all-Reads entries in
    Reads-and_then _ _ (publish_of-value entry) λ port p.
      Reads-and_then _ _ (Reads-value rest)
        λ ports q. reads (of_reads (rw p at each), of_reads (rw q at rest))

-- The request that is built of the arguments.
record IsBuilt (a : CreateArguments) (request : CreateContainerRequest) : Type 0 where
  entries : List Json
  listed : iterate a.publish_information ≡ ok entries
  published : ArePublished entries request.publish_information
  same : request ≡ record {
    image_name = a.image_name;
    container_name = a.container_name;
    network_name = a.network_name;
    exposure_level = a.exposure_level;
    publish_information = request.publish_information;
    environment_variables = a.environment_variables;
    cpu_request = a.cpu_request;
    cpu_limit = a.cpu_limit;
    memory_request = a.memory_request;
    memory_limit = a.memory_limit;
    ephemeral_request = a.ephemeral_request;
    ephemeral_limit = a.ephemeral_limit;
    snapshot_size_limit = a.snapshot_size_limit;
  }

build_create-Reads : (a : CreateArguments) → Reads (IsBuilt a) (build_create a)
unfolding build_create
build_create-Reads a = Reads-and_then _ _ (iterate-Reads a.publish_information) λ entries p.
    let all = publish_all-Reads entries in
    Reads-and_then _ _ (Reads-value all) λ ports q.
      reads
        (record { entries = entries; listed = p; published = of_reads (rw q at all); same = refl })

-- Whatever request is built of the arguments that a configuration gives is the one asked for.
abbrev IsRead : (image_key : String) → Json → (trace_id : String) → CreateArguments → Type 0
IsRead image_key cfg trace_id a =
    (a.request_id ≡ trace_id)
    × ((request : CreateContainerRequest) → IsBuilt a request → IsAsked image_key cfg request)

create_arguments-Reads :
    (image_key : String) (cfg : Json) (trace_id : String)
    → Reads (IsRead image_key cfg trace_id) (create_arguments image_key cfg trace_id)
unfolding create_arguments
create_arguments-Reads image_key cfg trace_id =
    Reads-and_then _ _ (index-Reads cfg _) λ image_name h0.
      Reads-and_then _ _ (index-Reads cfg _) λ container_name h1.
        Reads-and_then _ _ (index-Reads cfg _) λ network_name h2.
          Reads-and_then _ _ (get-Reads cfg _ _) λ exposure_level h3.
            Reads-and_then _ _ (get-Reads cfg _ _) λ publish_information h4.
              Reads-and_then _ _ (get-Reads cfg _ _) λ environment_variables h5.
                Reads-and_then _ _ (index-Reads cfg _) λ cpu_request h6.
                  Reads-and_then _ _ (index-Reads cfg _) λ cpu_limit h7.
                    Reads-and_then _ _ (index-Reads cfg _) λ memory_request h8.
                      Reads-and_then _ _ (index-Reads cfg _) λ memory_limit h9.
                        Reads-and_then _ _ (index-Reads cfg _) λ ephemeral_request h10.
                          Reads-and_then _ _ (index-Reads cfg _) λ ephemeral_limit h11.
                            Reads-and_then _ _ (get-Reads cfg _ _) λ snapshot_size_limit h12.
                              reads (
                                refl,
                                λ request b. record {
                                  image_name = h0 ∙ ap (λ r. ok r.image_name) (sym b.same);
                                  container_name = h1 ∙ ap (λ r. ok r.container_name) (sym b.same);
                                  network_name = h2 ∙ ap (λ r. ok r.network_name) (sym b.same);
                                  exposure_level = h3 ∙ ap (λ r. ok r.exposure_level) (sym b.same);
                                  information = publish_information;
                                  given = h4;
                                  entries = b.entries;
                                  listed = b.listed;
                                  published = b.published;
                                  environment_variables =
                                      h5 ∙ ap (λ r. ok r.environment_variables) (sym b.same);
                                  cpu_request = h6 ∙ ap (λ r. ok r.cpu_request) (sym b.same);
                                  cpu_limit = h7 ∙ ap (λ r. ok r.cpu_limit) (sym b.same);
                                  memory_request = h8 ∙ ap (λ r. ok r.memory_request) (sym b.same);
                                  memory_limit = h9 ∙ ap (λ r. ok r.memory_limit) (sym b.same);
                                  ephemeral_request =
                                      h10 ∙ ap (λ r. ok r.ephemeral_request) (sym b.same);
                                  ephemeral_limit =
                                      h11 ∙ ap (λ r. ok r.ephemeral_limit) (sym b.same);
                                  snapshot_size_limit =
                                      h12 ∙ ap (λ r. ok r.snapshot_size_limit) (sym b.same);
                                },
                              )

-- The text that the handler has of the exception of a call of Container Maker, if it has one.
abbrev pub told : Exc → Option String
told (rpc_error code text) = some ("Error creating container in ContainerMaker: " <> text)
told (maker_error message) = some message
told _ = none

module _ {W : Type 0} (env : Env W) (image_key : String) (cfg : Json)
    (command : ExecuteCommand) where
  -- The request was made at some moment, and answered so.
  pub record Answer (r : Result ContainerResponse) : Type 0 where
    pub request : CreateContainerRequest
    pub asked : IsAsked image_key cfg request
    pub moment : W
    pub answered : (env.maker.create request command.trace_id moment).0 ≡ r

  pub record Failure (message : String) : Type 0 where
    pub raised : Exc
    pub answer : Answer (err raised)
    pub tells : told raised ≡ some message

  -- How the placement has ended, as far as the handler replies to it.
  abbrev pub Ended : Result ContainerResponse → Type 0
  Ended (ok response) = Answer (ok response)
  Ended (err (maker_error message)) = Failure message
  Ended (err _) = Unit

  module _ (request : CreateContainerRequest) (asked : IsAsked image_key cfg request) where
    wrapped-Ended :
        (x : Exc) (v w : W)
        → (env.maker.create request command.trace_id v).0 ≡ err x
        → Ended (wrap "Error creating container in ContainerMaker: " x w).0
    unfolding wrap
    wrapped-Ended (rpc_error code text) v w h = record {
      raised = rpc_error code text;
      answer = record { request = request; asked = asked; moment = v; answered = h };
      tells = refl;
    }
    wrapped-Ended (maker_error message) v w h = record {
      raised = maker_error message;
      answer = record { request = request; asked = asked; moment = v; answered = h };
      tells = refl;
    }
    wrapped-Ended _ v w h = tt

    abbrev retried : Action W ContainerResponse
    retried =
        call_with_retry (default_policy env.maker.pause is_retryable)
          (env.maker.create request command.trace_id)

    -- Its outcome is that of one of the calls.
    retried-called :
        (w : W) → (v : W) × ((env.maker.create request command.trace_id v).0 ≡ (retried w).0)
    retried-called w =
        call_with_retry-all (default_policy env.maker.pause is_retryable)
          (env.maker.create request command.trace_id)
          (λ r. (v : W) × ((env.maker.create request command.trace_id v).0 ≡ r)) (λ v. (v, refl)) w
          (omega arith)

    call-Ended :
        (w : W)
        → Ended (handle retried pure (wrap "Error creating container in ContainerMaker: ") w).0
    unfolding call_with_retry
    call-Ended w =
        let (v, h) = retried-called w in
        elim (Result-cases (retried w).0) [
          | inl (response, e) ↦
              rw e (record { request = request; asked = asked; moment = v; answered = h ∙ e })
          | inr (x, e) ↦ rw e (wrapped-Ended x v _ (h ∙ e))
        ]

    accepted-Ended :
        (refusal : Option String) (w : W)
        → Ended
            ((accept refusal
                >> handle retried pure (wrap "Error creating container in ContainerMaker: "))
              w).0
    accepted-Ended none w = call-Ended w
    accepted-Ended (some message) w = tt

  refused-Ended : {A : Type 0} {e : Exc} → Reads {A = A} Value (err e) → Ended (err e)
  refused-Ended refuses = tt

  arguments-Ended :
      (a : CreateArguments) (w : W)
      → IsRead image_key cfg command.trace_id a
      → Ended (create_container env.maker a w).0
  unfolding create_container
  arguments-Ended a w (traced, asks) =
      let built = build_create-Reads a in
      elim (Result-cases (build_create a)) [
        | inl (request, e) ↦
            rw (e, traced)
              (accepted-Ended request (asks request (of_reads (rw e at built)))
                (env.maker.refuse_create request) w)
        | inr (x, e) ↦ rw e (refused-Ended (Reads-value (rw e at built)))
      ]

  pub request_placement-Ended : (w : W) → Ended (request_placement env image_key cfg command w).0
  request_placement-Ended w =
      let read = create_arguments-Reads image_key cfg command.trace_id in
      elim (Result-cases (create_arguments image_key cfg command.trace_id)) [
        | inl (a, e) ↦ rw e (arguments-Ended a w (of_reads (rw e at read)))
        | inr (x, e) ↦ rw e (refused-Ended (Reads-value (rw e at read)))
      ]
