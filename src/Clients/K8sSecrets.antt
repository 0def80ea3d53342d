-- ===== src/Clients/K8sSecrets.antt =====
-- clients/k8s_secrets.py. The Kubernetes client is not in the repository: it is a parameter, with
-- the exception that a call of it raises. A secret's values are texts, each the list of its codes.
pub mod Base64
pub mod Keys
pub mod Caching
use browseterm_device_agent.Prelude.{
  String, Bool, true, false, not, Option, none, some, List, [], ◌∷◌, ℕ, ◌<>◌, ◌==◌, if◌then◌else◌,
}
use browseterm_device_agent.Effects.{Action, Result, ok, err, Exc}
use browseterm_device_agent.Clients.K8sSecrets.Base64.{
  Base64Error, Decoded, bytes, refused, b64decode,
}

-- `secret.data`: `none` for a secret without data.
abbrev pub SecretData : Type 0
SecretData = Option (List (String × List ℕ))

-- What `kubernetes.client` and `kubernetes.config` do. `load_incluster_config` returns, or raises a
-- ConfigException or something else.
pub data Loaded : Type 0 where
  loaded config_exception : Loaded
  raised : Exc → Loaded

pub record KubernetesApi (W : Type 0) : Type 0 where
  pub load_incluster_config : W → Loaded × W
  pub load_kube_config : Action W (Unit {0})
  pub read_namespaced_secret : (name namespace : String) → Action W SecretData

-- How a read ends: with the bytes, or with the exception of the call, the KeyError, the TypeError of
-- `in` on None, the AttributeError of a reader that was not set up, or that of `b64decode`.
pub data SecretAnswer : Type 0 where
  value : List ℕ → SecretAnswer
  api_error : Exc → SecretAnswer
  key_error : (key secret_name : String) → SecretAnswer
  type_error attribute_error : SecretAnswer
  decode_error : Base64Error → SecretAnswer

abbrev pub Cache : Type 0
Cache = List (String × SecretData)

-- `initialized` is set before the configuration is loaded, the client and the cache after it.
pub record K8sSecretsReader : Type 0 where
  pub initialized : Bool
  pub has_client : Bool
  pub cache : Option Cache

unfoldable pub lookup : {A : Type 0} → String → List (String × A) → Option A
lookup k [] = none
lookup k ((j, v) ∷ c) = if j == k then some v else lookup k c

abbrev pub cache_key : (secret_name namespace : String) → String
cache_key secret_name namespace = namespace <> ("/" <> secret_name)

abbrev pub answer_of : Decoded → SecretAnswer
answer_of (bytes bs) = value bs
answer_of (refused e) = decode_error e

-- From `if key not in secret_data` on.
unfoldable pub pick : (key secret_name : String) → SecretData → SecretAnswer
unfolding lookup b64decode
pick key secret_name none = type_error
pick key secret_name (some fields) = elim (lookup key fields) [
  | none ↦ key_error key secret_name
  | some text ↦ answer_of (b64decode text)
]

module _ {W : Type 0} (api : KubernetesApi W) where
  -- `__new__`, on the class's `_instance`
  abbrev pub new : Option K8sSecretsReader → K8sSecretsReader
  new none = record { initialized = false; has_client = false; cache = none }
  new (some reader) = reader

  abbrev pub started : W → Result (Unit {0}) × (K8sSecretsReader × W)
  started w = (ok tt, (record { initialized = true; has_client = true; cache = some [] }, w))

  abbrev pub broken : Exc → W → Result (Unit {0}) × (K8sSecretsReader × W)
  broken e w = (err e, (record { initialized = true; has_client = false; cache = none }, w))

  -- `__init__`
  unfoldable pub init : K8sSecretsReader → W → Result (Unit {0}) × (K8sSecretsReader × W)
  init reader w =
      let (l, v) = api.load_incluster_config w in
      let (r, u) = api.load_kube_config v in
      if reader.initialized then (ok tt, (reader, w)) else elim l [
        | loaded ↦ started v
        | config_exception ↦ elim r [ ok done ↦ started u | err e ↦ broken e u ]
        | raised e ↦ broken e v
      ]

  -- `K8sSecretsReader()`: the reader stays the class's instance, also where it raises.
  unfoldable pub construct :
      Option K8sSecretsReader → W → Result (Unit {0}) × (K8sSecretsReader × W)
  unfolding init
  construct instance_ w = init (new instance_) w

  unfoldable pub get_secret :
      (secret_name namespace key : String)
      → K8sSecretsReader
      → W
      → SecretAnswer × (K8sSecretsReader × W)
  unfolding lookup pick
  get_secret secret_name namespace key reader w = elim reader.cache [
    | none ↦ (attribute_error, (reader, w))
    | some cache ↦ elim (lookup (cache_key secret_name namespace) cache) [
      | some data_ ↦ (pick key secret_name data_, (reader, w))
      | none ↦
          if not reader.has_client
          then (attribute_error, (reader, w))
          else (let (r, v) = api.read_namespaced_secret secret_name namespace w in
              elim r [
                | ok data_ ↦ (
                  pick key secret_name data_,
                  (
                    record reader {
                      cache = some ((cache_key secret_name namespace, data_) ∷ cache);
                    },
                    v,
                  ),
                )
                | err e ↦ (api_error e, (reader, v))
              ])
    ]
  ]

unfoldable pub clear_cache : K8sSecretsReader → K8sSecretsReader
clear_cache reader = record reader { cache = some [] }

-- `read_cert_from_k8s_secret`, on the module's `k8s_secrets_reader`
unfoldable pub read_cert_from_k8s_secret :
    {W : Type 0}
    → KubernetesApi W
    → (secret_name namespace key : String) → K8sSecretsReader
    → W
    → SecretAnswer × (K8sSecretsReader × W)
unfolding get_secret
read_cert_from_k8s_secret api secret_name namespace key reader w =
    get_secret api secret_name namespace key reader w
