-- ===== src/Main/Startup/OneCall.antt =====
-- The three certificates of device_agent/main.py cost one call of the Kubernetes API.
use browseterm_device_agent.Prelude.{
  ℕ, ◌+◌, ◌≤◌, String, ◌≡◌, ◌≢◌, refl, some, List, ◌∷◌, arith, inl, inr, ◌⊎◌, eq_refl, Option-cases,
  Bool-cases,
}
use browseterm_device_agent.Config.{Config}
use browseterm_device_agent.Effects.{Result-cases}
use browseterm_device_agent.Clients.K8sSecrets.{
  SecretData, KubernetesApi, K8sSecretsReader, Cache, SecretAnswer, value, lookup, cache_key,
  get_secret, read_cert_from_k8s_secret,
}
use browseterm_device_agent.Main.Startup.{
  Start, Host, read_then, ready, read_ca_cert, read_client_cert, read_certificate,
  build_container_maker_client,
}

-- The secret is in the reader's cache.
record Holds (path : String) (reader : K8sSecretsReader) : Type 0 where
  cache : Cache
  data_ : SecretData
  kept : reader.cache ≡ some cache
  found : lookup path cache ≡ some data_

SecretAnswer-cases :
    (a : SecretAnswer) → ((bs : List ℕ) × (a ≡ value bs)) ⊎ ((bs : List ℕ) → a ≢ value bs)
SecretAnswer-cases (value bs) = inl (bs, refl)
SecretAnswer-cases _ = inr (λ bs h. cc)

module _ {W : Type 0} (api : KubernetesApi W) (requests : W → ℕ)
    (counts : (secret_name namespace : String) (w : W)
      → requests (api.read_namespaced_secret secret_name namespace w).1 ≤ requests w + 1)
    (n ns key : String) where
  get_secret-held :
      (reader : K8sSecretsReader) (w : W)
      → Holds (cache_key n ns) reader
      → (get_secret api n ns key reader w).1 ≡ (reader, w)
  unfolding get_secret
  get_secret-held reader w h = ground (arith, h.kept, h.found)

  get_secret-requests :
      (reader : K8sSecretsReader) (w : W)
      → requests (get_secret api n ns key reader w).1.1 ≤ requests w + 1
  unfolding get_secret
  get_secret-requests reader w = ground (arith, counts n ns w)

  get_secret-Holds :
      (reader : K8sSecretsReader) (w : W) (bs : List ℕ)
      → (get_secret api n ns key reader w).0 ≡ value bs
      → Holds (cache_key n ns) (get_secret api n ns key reader w).1.0
  unfolding get_secret lookup
  get_secret-Holds reader w bs h = elim (Option-cases reader.cache) [
    | inl e ↦ absurd (ground (arith, h))
    | inr (cache, e) ↦ elim (Option-cases (lookup (cache_key n ns) cache)) [
      | inr (d, f) ↦ record { cache = cache; data_ = d; kept = ground (arith, e, f); found = f }
      | inl absent ↦ elim (Bool-cases reader.has_client) [
        | inr no_client ↦ absurd (ground (arith, h))
        | inl client ↦ elim (Result-cases (api.read_namespaced_secret n ns w).0) [
          | inl (d, r) ↦ record {
            cache = (cache_key n ns, d) ∷ cache;
            data_ = d;
            kept = ground (arith, e, absent, client, r);
            found = rw (eq_refl (cache_key n ns)) refl;
          }
          | inr (x, r) ↦ absurd (ground (arith, h))
        ]
      ]
    ]
  ]

module _ {S A : Type 0} where
  -- A read that leaves the state as it was, before others that do.
  read_then-same :
      (r : SecretAnswer × S) (s : S) (f : List ℕ → S → Start A × S)
      → r.1 ≡ s
      → ((bs : List ℕ) → (f bs s).1 ≡ s)
      → (read_then r f).1 ≡ s
  read_then-same (value bs, t) s f e k = rw e (k bs)
  read_then-same (_, t) s f e k = e

  -- A read that raises ends the start.
  read_then-raised :
      (r : SecretAnswer × S) (f : List ℕ → S → Start A × S)
      → ((bs : List ℕ) → r.0 ≢ value bs)
      → (read_then r f).1 ≡ r.1
  read_then-raised (value bs, t) f h = absurd (h bs refl)
  read_then-raised (_, t) f h = refl

module _ {W : Type 0} (host : Host W) (requests : W → ℕ)
    (counts : (secret_name namespace : String) (w : W)
      → requests (host.kubernetes.read_namespaced_secret secret_name namespace w).1
        ≤ requests w + 1)
    (c : Config) where
  abbrev path : String
  path = cache_key c.container_maker_certs_secret_name c.namespace

  read_certificate-held :
      (key : String) (reader : K8sSecretsReader) (w : W)
      → Holds path reader
      → (read_certificate host c key (reader, w)).1 ≡ (reader, w)
  unfolding read_cert_from_k8s_secret
  read_certificate-held key reader w h =
      get_secret-held host.kubernetes requests counts c.container_maker_certs_secret_name
        c.namespace key reader w h

  read_certificate-requests :
      (key : String) (reader : K8sSecretsReader) (w : W)
      → requests (read_certificate host c key (reader, w)).1.1 ≤ requests w + 1
  unfolding read_cert_from_k8s_secret
  read_certificate-requests key reader w =
      get_secret-requests host.kubernetes requests counts c.container_maker_certs_secret_name
        c.namespace key reader w

  read_certificate-Holds :
      (key : String) (reader : K8sSecretsReader) (w : W) (bs : List ℕ)
      → (read_certificate host c key (reader, w)).0 ≡ value bs
      → Holds path (read_certificate host c key (reader, w)).1.0
  unfolding read_cert_from_k8s_secret
  read_certificate-Holds key reader w bs h =
      get_secret-Holds host.kubernetes requests counts c.container_maker_certs_secret_name
        c.namespace key reader w bs h

  read_ca_cert-held :
      (key cert : List ℕ) (reader : K8sSecretsReader) (w : W)
      → Holds path reader
      → (read_ca_cert host c key cert (reader, w)).1 ≡ (reader, w)
  read_ca_cert-held key cert reader w h =
      read_then-same (read_certificate host c "ca.crt" (reader, w)) (reader, w)
        (λ ca_cert t.
          (ready (record { client_key = key; client_cert = cert; ca_cert = ca_cert }), t))
        (read_certificate-held "ca.crt" reader w h) (λ ca. refl)

  read_client_cert-held :
      (key : List ℕ) (reader : K8sSecretsReader) (w : W)
      → Holds path reader
      → (read_client_cert host c key (reader, w)).1 ≡ (reader, w)
  read_client_cert-held key reader w h =
      read_then-same (read_certificate host c "client.crt" (reader, w)) (reader, w)
        (read_ca_cert host c key) (read_certificate-held "client.crt" reader w h)
        (λ cert. read_ca_cert-held key cert reader w h)

  requests-same :
      {A : Type 0} (x : Start A × (K8sSecretsReader × W)) (s : K8sSecretsReader × W) (n : ℕ)
      → x.1 ≡ s
      → requests s.1 ≤ n
      → requests x.1.1 ≤ n
  requests-same x s n e h = rw e h

  -- If a call of the Kubernetes API is one request at most, then making the client of Container
  -- Maker makes one request at most for its three certificates, also where a read raises.
  pub build_container_maker_client-one_call :
      (reader : K8sSecretsReader) (w : W)
      → requests (build_container_maker_client host c (reader, w)).1.1 ≤ requests w + 1
  unfolding build_container_maker_client
  build_container_maker_client-one_call reader w =
      let first = read_certificate host c "client.key" (reader, w) in
      let once = read_certificate-requests "client.key" reader w in
      elim (SecretAnswer-cases first.0) [
        | inl (bs, h) ↦
            let held = read_certificate-Holds "client.key" reader w bs h in
            requests-same (build_container_maker_client host c (reader, w)) first.1 _
              (read_then-same first first.1 (read_client_cert host c) refl
                (λ key. read_client_cert-held key first.1.0 first.1.1 held))
              once
        | inr h ↦
            requests-same (build_container_maker_client host c (reader, w)) first.1 _
              (read_then-raised first (read_client_cert host c) h) once
      ]
