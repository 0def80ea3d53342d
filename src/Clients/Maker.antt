-- ===== src/Clients/Maker.antt =====
-- clients/container_maker_client.py. Container Maker, its gRPC stub and protobuf are `MakerApi`.
pub mod Once
pub mod Ends
pub mod Channel
use browseterm_device_agent.Prelude.{
  ℕ, String, Bool, true, false, Option, none, some, List, [], ◌∷◌, ◌<>◌,
}
use browseterm_device_agent.Json.{Json, null, int, str, pos}
use browseterm_device_agent.Json.Access.{get, iterate}
use browseterm_device_agent.Effects.{
  Action, Result, ok, err, Exc, StatusCode, unavailable, rpc_error, maker_error, other, pure, raise,
  lift, handle, and_then, ◌>>=◌, ◌>>◌,
}
use browseterm_device_agent.Clients.Retry.{Policy, call_with_retry}

pub record PublishInformation : Type 0 where
  pub publish_port : Json
  pub target_port : Json
  pub protocol : Json
  pub node_port : Json

-- The fields as the request's constructor is given them; it checks their types.
pub record CreateContainerRequest : Type 0 where
  pub image_name : Json
  pub container_name : Json
  pub network_name : Json
  pub exposure_level : Json
  pub publish_information : List PublishInformation
  pub environment_variables : Json
  pub cpu_request : Json
  pub cpu_limit : Json
  pub memory_request : Json
  pub memory_limit : Json
  pub ephemeral_request : Json
  pub ephemeral_limit : Json
  pub snapshot_size_limit : Json

-- Of DeleteContainerRequest and SaveContainerRequest.
pub record ContainerRequest : Type 0 where
  pub container_id : String
  pub network_name : Json

pub record ContainerResponse : Type 0 where
  pub container_id : String
  pub container_name : String
  pub container_ip : Option String

pub record DeleteContainerResponse : Type 0 where
  pub container_id : String
  pub status : String

pub record SavedPod : Type 0 where
  pub pod_name : String
  pub namespace_name : String

-- What is not in the repository: the constructors of the requests, which refuse a field of a wrong
-- type (the message of the exception), the calls of the stub with a request and its request id, and
-- `asyncio.sleep` with the random factor.
pub record MakerApi (W : Type 0) : Type 0 where
  pub refuse_create : CreateContainerRequest → Option String
  pub refuse : ContainerRequest → Option String
  pub create : CreateContainerRequest → String → Action W ContainerResponse
  pub delete : ContainerRequest → String → Action W DeleteContainerResponse
  pub save : ContainerRequest → String → Action W (List SavedPod)
  pub pause : ℕ → W → W

-- `_is_retryable`
unfoldable pub is_retryable : Exc → Bool
is_retryable (rpc_error (some unavailable) _) = true
is_retryable _ = false

-- `call_with_retry` with its default arguments
abbrev pub default_policy : {W : Type 0} → (ℕ → W → W) → (Exc → Bool) → Policy W
default_policy pause f = record {
  is_retryable = f;
  max_attempts = 3;
  base_delay = 500;
  max_delay = 5000;
  pause = pause;
}

-- `except grpc.RpcError as e: raise ContainerMakerClientError(...) from e`
unfoldable pub wrap : {S A : Type 0} → String → Exc → Action S A
wrap prefix (rpc_error code text) = raise (maker_error (prefix <> text))
wrap prefix e = raise e

abbrev pub accept : {S : Type 0} → Option String → Action S (Unit {0})
accept none = pure tt
accept (some text) = raise (other text)

-- The arguments of `create_container`.
pub record CreateArguments : Type 0 where
  pub image_name : Json
  pub container_name : Json
  pub network_name : Json
  pub exposure_level : Json
  pub publish_information : Json
  pub environment_variables : Json
  pub cpu_request : Json
  pub cpu_limit : Json
  pub memory_request : Json
  pub memory_limit : Json
  pub ephemeral_request : Json
  pub ephemeral_limit : Json
  pub snapshot_size_limit : Json
  pub request_id : String

unfoldable pub publish_of : Json → Result PublishInformation
publish_of p = and_then (get p "publish_port" (int (pos 2222))) λ publish_port.
    and_then (get p "target_port" (int (pos 22))) λ target_port.
      and_then (get p "protocol" (str "TCP")) λ protocol.
        and_then (get p "node_port" null) λ node_port. ok (record {
          publish_port = publish_port;
          target_port = target_port;
          protocol = protocol;
          node_port = node_port;
        })

unfoldable pub publish_all : List Json → Result (List PublishInformation)
unfolding publish_of
publish_all [] = ok []
publish_all (p ∷ ps) =
    let rest = publish_all ps in and_then (publish_of p) λ x. and_then rest λ xs. ok (x ∷ xs)

unfoldable pub build_create : CreateArguments → Result CreateContainerRequest
unfolding publish_all
build_create a = and_then (iterate a.publish_information) λ ps.
    and_then (publish_all ps) λ published. ok (record {
      image_name = a.image_name;
      container_name = a.container_name;
      network_name = a.network_name;
      exposure_level = a.exposure_level;
      publish_information = published;
      environment_variables = a.environment_variables;
      cpu_request = a.cpu_request;
      cpu_limit = a.cpu_limit;
      memory_request = a.memory_request;
      memory_limit = a.memory_limit;
      ephemeral_request = a.ephemeral_request;
      ephemeral_limit = a.ephemeral_limit;
      snapshot_size_limit = a.snapshot_size_limit;
    })

module _ {W : Type 0} (api : MakerApi W) where
  abbrev policy : Policy W
  policy = default_policy api.pause is_retryable

  unfoldable pub create_container : CreateArguments → Action W ContainerResponse
  create_container a = do
    request ← lift (build_create a)
    accept (api.refuse_create request)
    handle (call_with_retry policy (api.create request a.request_id)) pure
        (wrap "Error creating container in ContainerMaker: ")

  unfoldable pub delete_container :
      (container_id : String) (network_name : Json) (request_id : String)
      → Action W DeleteContainerResponse
  delete_container container_id network_name request_id = do
    let request : ContainerRequest = record {
      container_id = container_id;
      network_name = network_name;
    }
    accept (api.refuse request)
    handle (call_with_retry policy (api.delete request request_id)) pure
        (wrap "Error deleting container in ContainerMaker: ")

  unfoldable pub save_container :
      (container_id : String) (network_name : Json) (request_id : String) → Action W (List SavedPod)
  save_container container_id network_name request_id = do
    let request : ContainerRequest = record {
      container_id = container_id;
      network_name = network_name;
    }
    accept (api.refuse request)
    handle (call_with_retry policy (api.save request request_id)) pure
        (wrap "Error saving container in ContainerMaker: ")
