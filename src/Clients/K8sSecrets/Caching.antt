-- ===== src/Clients/K8sSecrets/Caching.antt =====
-- The cache of clients/k8s_secrets.py is not seen in what is read, and it spares the calls.
use browseterm_device_agent.Prelude.{
  ◌==◌, All, Bool-cases, sym, false, String, ℕ, ◌≡◌, refl, ap, true, none, some, List, [], ◌∷◌, map,
  eq_iff, arith, inl, inr, Option-cases,
}
use browseterm_device_agent.Effects.{ok}
use browseterm_device_agent.Clients.K8sSecrets.Keys.{has_slash, cache_key-inj}
use browseterm_device_agent.Clients.K8sSecrets.{
  SecretData, KubernetesApi, SecretAnswer, Cache, K8sSecretsReader, lookup, cache_key, pick,
  get_secret, construct, init, value, answer_of,
}
use browseterm_device_agent.Clients.K8sSecrets.Base64.RoundTrip.{encode, AreBytes, b64decode-encode}
use browseterm_device_agent.Clients.K8sSecrets.Base64.{b64decode}

pub record Request : Type 0 where
  pub secret_name : String
  pub namespace : String
  pub key : String

-- The secret that a request is about.
abbrev pub path : Request → String
path q = cache_key q.secret_name q.namespace

-- A reader that is set up, with this cache.
abbrev pub reader_with : Cache → K8sSecretsReader
reader_with cache = record { initialized = true; has_client = true; cache = some cache }

module _ {W : Type 0} (api : KubernetesApi W) where
  abbrev pub read : Request → K8sSecretsReader → W → SecretAnswer × (K8sSecretsReader × W)
  read q = get_secret api q.secret_name q.namespace q.key

  -- The reads of a process, in their order.
  abbrev pub read_all : List Request → K8sSecretsReader → W → List SecretAnswer
  read_all [] reader w = []
  read_all (q ∷ qs) reader w =
      let (answer, (later, v)) = read q reader w in answer ∷ read_all qs later v

  pub get_secret-hit :
      (q : Request) (cache : Cache) (w : W) (d : SecretData)
      → lookup (path q) cache ≡ some d
      → read q (reader_with cache) w ≡ (pick q.key q.secret_name d, (reader_with cache, w))
  unfolding get_secret
  get_secret-hit q cache w d h = ground arith

  pub get_secret-miss :
      (q : Request) (cache : Cache) (w : W) (d : SecretData)
      → lookup (path q) cache ≡ none
      → (api.read_namespaced_secret q.secret_name q.namespace w).0 ≡ ok d
      → read q (reader_with cache) w ≡ (
        pick q.key q.secret_name d,
        (
          reader_with ((path q, d) ∷ cache),
          (api.read_namespaced_secret q.secret_name q.namespace w).1,
        ),
      )
  unfolding get_secret
  get_secret-miss q cache w d h e = ground arith

pub construct-ok :
    {W : Type 0} (api : KubernetesApi W) (w : W)
    → (construct api none w).0 ≡ ok tt
    → (construct api none w).1.0 ≡ reader_with []
unfolding construct init
construct-ok api w e = ground arith

pub pick-found :
    (key secret_name : String) (fields : List (String × List ℕ)) (text : List ℕ)
    → lookup key fields ≡ some text
    → pick key secret_name (some fields) ≡ answer_of (b64decode text)
unfolding pick
pick-found key secret_name fields text h = ground arith

-- If the reader could be constructed, and the secret that the server answers with holds under the
-- key the base64 text of some bytes, as RFC 4648 has it, then reading the key gives these bytes.
get_secret-encode :
    {W : Type 0} (api : KubernetesApi W) (q : Request) (fields : List (String × List ℕ))
    (bs : List ℕ) (w v : W)
    → (construct api none w).0 ≡ ok tt
    → (api.read_namespaced_secret q.secret_name q.namespace v).0 ≡ ok (some fields)
    → lookup q.key fields ≡ some (encode bs)
    → AreBytes bs
    → (read api q (construct api none w).1.0 v).0 ≡ value bs
get_secret-encode api q fields bs w v built answered found small =
    rw
      (
        construct-ok api w built,
        get_secret-miss api q [] v (some fields) (unfold lookup in refl) answered,
        pick-found q.key q.secret_name fields (encode bs) found,
        b64decode-encode bs small,
      )
      refl

module _ {W : Type 0} (api : KubernetesApi W)
    (server : (secret_name namespace : String) → SecretData)
    (serves : (secret_name namespace : String) (w : W)
      → (api.read_namespaced_secret secret_name namespace w).0
        ≡ ok (server secret_name namespace)) where
  -- The cache holds what the server has.
  abbrev Mirrors : Cache → Type 0
  Mirrors cache =
      (name namespace : String) (d : SecretData)
      → has_slash namespace ≡ false
      → lookup (cache_key name namespace) cache ≡ some d
      → d ≡ server name namespace

  Mirrors-cons :
      (name namespace : String) (cache : Cache)
      → has_slash namespace ≡ false
      → Mirrors cache
      → Mirrors ((cache_key name namespace, server name namespace) ∷ cache)
  unfolding lookup
  Mirrors-cons name namespace cache plain m n ns d h found =
      elim (Bool-cases (cache_key name namespace == cache_key n ns)) [
        | inl y ↦
            let (same, here) =
              cache_key-inj name namespace n ns plain h
                (ground (arith, y, eq_iff (cache_key name namespace) (cache_key n ns))) in
            rw (sym same, sym here) (cc (rw y at found))
        | inr other ↦ m n ns d h (rw other at found)
      ]

  abbrev direct : Request → SecretAnswer
  direct q = pick q.key q.secret_name (server q.secret_name q.namespace)

  read_all-mirrored :
      (qs : List Request) (cache : Cache) (w : W)
      → All (λ (q : Request). has_slash q.namespace ≡ false) qs
      → Mirrors cache
      → read_all api qs (reader_with cache) w ≡ map direct qs
  read_all-mirrored [] cache w plain m = refl
  read_all-mirrored (q ∷ qs) cache w plain m = elim (Option-cases (lookup (path q) cache)) [
    | inl absent ↦
        rw
          (get_secret-miss api q cache w (server q.secret_name q.namespace) absent
            (serves q.secret_name q.namespace w))
          (ap (λ l. direct q ∷ l)
            (read_all-mirrored qs _ _ plain.1
              (Mirrors-cons q.secret_name q.namespace cache plain.0 m)))
    | inr (d, found) ↦
        rw (get_secret-hit api q cache w d found, m q.secret_name q.namespace d plain.0 found)
          (ap (λ l. direct q ∷ l) (read_all-mirrored qs cache w plain.1 m))
  ]

  Mirrors-nil : Mirrors []
  unfolding lookup
  Mirrors-nil name namespace d plain h = absurd (cc h)

  -- If the server answers every read with the data that it has for the namespace and the name, the
  -- reader could be constructed, and no namespace that is asked for has a slash in its name, then
  -- the reads of a process give, one after the other, what reading the server each time would give.
  pub read_all-direct :
      (qs : List Request) (w v : W)
      → (construct api none w).0 ≡ ok tt
      → All (λ (q : Request). has_slash q.namespace ≡ false) qs
      → read_all api qs (construct api none w).1.0 v
        ≡ map (λ q. pick q.key q.secret_name (server q.secret_name q.namespace)) qs
  read_all-direct qs w v e plain =
      rw (construct-ok api w e) (read_all-mirrored qs [] v plain Mirrors-nil)
