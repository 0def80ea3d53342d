-- ===== src/Main/Startup/Keys.antt =====
-- The certificates that device_agent/main.py gives to the client of Container Maker are those of the
-- secret, each in its place.
use browseterm_device_agent.Prelude.{
  ℕ, String, ◌≡◌, refl, ap, ◌∙◌, none, some, List, [], ◌∷◌, eq_refl,
}
use browseterm_device_agent.Config.{Config}
use browseterm_device_agent.Channel.{secure_channel, target}
use browseterm_device_agent.Effects.{ok}
use browseterm_device_agent.Clients.K8sSecrets.{
  K8sSecretsReader, value, pick, answer_of, lookup, cache_key, construct, read_cert_from_k8s_secret,
}
use browseterm_device_agent.Clients.K8sSecrets.Base64.RoundTrip.{encode, AreBytes, b64decode-encode}
use browseterm_device_agent.Clients.K8sSecrets.Caching.{
  Request, reader_with, get_secret-hit, get_secret-miss, construct-ok, pick-found,
}
use browseterm_device_agent.Main.Run.{container_maker_channel}
use browseterm_device_agent.Main.Startup.{
  Host, Start, ready, Certificates, read_then, read_certificate, read_client_cert, read_ca_cert,
  build_container_maker_client,
}

module _ {W : Type 0} (host : Host W) (c : Config) (fields : List (String × List ℕ)) where
  abbrev path : String
  path = cache_key c.container_maker_certs_secret_name c.namespace

  -- The reader that has read the secret.
  abbrev filled : K8sSecretsReader
  filled = reader_with ((path, some fields) ∷ [])

  found : lookup path ((path, some fields) ∷ []) ≡ some (some fields)
  unfolding lookup
  found = rw (eq_refl path) refl

  abbrev after : W → W
  after v =
      (host.kubernetes.read_namespaced_secret c.container_maker_certs_secret_name c.namespace v).1

  abbrev request : (key : String) → Request
  request key = record {
    secret_name = c.container_maker_certs_secret_name;
    namespace = c.namespace;
    key = key;
  }

  module _ (key : String) (bs : List ℕ) (stored : lookup key fields ≡ some (encode bs))
      (small : AreBytes bs) where
    picked : pick key c.container_maker_certs_secret_name (some fields) ≡ value bs
    picked = pick-found key _ fields (encode bs) stored ∙ ap answer_of (b64decode-encode bs small)

    read-first :
        (v : W)
        → (host.kubernetes.read_namespaced_secret c.container_maker_certs_secret_name c.namespace
            v).0
          ≡ ok (some fields)
        → read_certificate host c key (reader_with [], v) ≡ (value bs, (filled, after v))
    unfolding read_cert_from_k8s_secret
    read-first v answered =
        get_secret-miss host.kubernetes (request key) [] v (some fields) (unfold lookup in refl)
          answered
        ∙ ap (λ answer. (answer, (filled, after v))) picked

    read-again : (v : W) → read_certificate host c key (filled, v) ≡ (value bs, (filled, v))
    unfolding read_cert_from_k8s_secret
    read-again v =
        get_secret-hit host.kubernetes (request key) _ v (some fields) found
        ∙ ap (λ answer. (answer, (filled, v))) picked

  abbrev with_ca_cert :
      (key cert ca : List ℕ) → K8sSecretsReader × W → Start Certificates × (K8sSecretsReader × W)
  with_ca_cert key cert ca s =
      (ready (record { client_key = key; client_cert = cert; ca_cert = ca }), s)

  -- If the reader could be constructed, and the server answers with a secret that holds three byte
  -- strings, as base64 texts by RFC 4648, under "client.key", "client.crt" and "ca.crt", then the
  -- channel to Container Maker is one over TLS to the host and the port of the settings, with the
  -- first as its private key, the second as its certificate and the third as the root it trusts.
  pub container_maker_channel-encode :
      (key cert ca : List ℕ) (w v : W)
      → (construct host.kubernetes none w).0 ≡ ok tt
      → (host.kubernetes.read_namespaced_secret c.container_maker_certs_secret_name c.namespace v).0
        ≡ ok (some fields)
      → lookup "client.key" fields ≡ some (encode key)
      → lookup "client.crt" fields ≡ some (encode cert)
      → lookup "ca.crt" fields ≡ some (encode ca)
      → AreBytes key
      → AreBytes cert
      → AreBytes ca
      → (built : Certificates) × ((build_container_maker_client host c
            ((construct host.kubernetes none w).1.0, v)).0
          ≡ ready built)
        × (container_maker_channel c built
            ≡ secure_channel (target c.container_maker_host c.container_maker_port) (record {
              root_certificates = some ca;
              private_key = some key;
              certificate_chain = some cert;
            }))
  unfolding build_container_maker_client
  container_maker_channel-encode key cert ca w v built answered k l m bk bl bm = (
    record { client_key = key; client_cert = cert; ca_cert = ca },
    rw (construct-ok host.kubernetes w built) (
        ap (λ x. x.0)
          (ap (λ x. read_then x (read_client_cert host c))
              (read-first "client.key" key k bk v answered)
            ∙ ap (λ x. read_then x (read_ca_cert host c key))
                (read-again "client.crt" cert l bl (after v))
            ∙ ap (λ x. read_then x (with_ca_cert key cert))
                (read-again "ca.crt" ca m bm (after v)))),
    refl,
  )
