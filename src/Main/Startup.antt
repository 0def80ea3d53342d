-- ===== src/Main/Startup.antt =====
-- What device_agent/main.py does before the agent runs: the files of the device, and the
-- certificates of Container Maker.
pub mod OneCall
pub mod Keys
use Prim.Native.Char.{Char, code}
use Prim.Native.String
use browseterm_device_agent.Prelude.{
  ℕ, String, Bool, true, false, ◌&&◌, ◌||◌, leb, ltb, ◌==◌, List, if◌then◌else◌,
}
use browseterm_device_agent.Effects.{Exc}
use browseterm_device_agent.Config.{Config}
use browseterm_device_agent.Clients.K8sSecrets.{
  KubernetesApi, K8sSecretsReader, SecretAnswer, value, read_cert_from_k8s_secret,
}

-- What `open(path, "r")` and `f.read()` come to.
pub data FileText : Type 0 where
  text : String → FileText
  not_found : FileText
  unreadable : Exc → FileText

-- How the start goes: `system_exit` is `sys.exit(code)`, `secret_error` an exception of a secret.
pub data Start (A : Type 0) : Type 0 where
  ready : A → Start A
  system_exit : (exit_code : ℕ) → Start A
  secret_error : SecretAnswer → Start A
  raised : Exc → Start A

-- The files, the Kubernetes client, and the white space beyond ASCII of Python's `strip`.
pub record Host (W : Type 0) : Type 0 where
  pub read_file : String → W → FileText × W
  pub kubernetes : KubernetesApi W
  pub space_beyond_ascii : ℕ → Bool

-- `s.strip()`
abbrev pub is_space : (ℕ → Bool) → ℕ → Bool
is_space beyond n = if ltb n 128 then (leb 9 n && leb n 13) || (leb 28 n && leb n 32) else beyond n

unfoldable pub lstrip : (ℕ → Bool) → String → String
lstrip beyond String.[] = ""
lstrip beyond (String.◌∷◌ c s) =
    let rest = lstrip beyond s in if is_space beyond (code c) then rest else String.◌∷◌ c s

unfoldable pub rstrip : (ℕ → Bool) → String → String
rstrip beyond String.[] = ""
rstrip beyond (String.◌∷◌ c s) =
    let rest = rstrip beyond s in
    if is_space beyond (code c) && rest == "" then "" else String.◌∷◌ c rest

unfoldable pub strip : (ℕ → Bool) → String → String
unfolding lstrip rstrip
strip beyond s = rstrip beyond (lstrip beyond s)

-- The keys of the secret, as the client of Container Maker is given them.
pub record Certificates : Type 0 where
  pub client_key : List ℕ
  pub client_cert : List ℕ
  pub ca_cert : List ℕ

-- `return f(value)`, unless the read raises.
abbrev pub read_then : {S A : Type 0} → SecretAnswer × S → (List ℕ → S → Start A × S) → Start A × S
read_then (a, s) f = elim a [ value bs ↦ f bs s | other ↦ (secret_error other, s) ]

module _ {W : Type 0} (host : Host W) where
  unfoldable pub read_required_file : (path : String) → W → Start String × W
  unfolding strip
  read_required_file path w =
      let (r, v) = host.read_file path w in
      elim r [
        | text s ↦ (ready (strip host.space_beyond_ascii s), v)
        | not_found ↦ (system_exit 1, v)
        | unreadable e ↦ (raised e, v)
      ]

  abbrev pub read_certificate :
      Config → (key : String) → K8sSecretsReader × W → SecretAnswer × (K8sSecretsReader × W)
  read_certificate c key (reader, w) =
      read_cert_from_k8s_secret host.kubernetes c.container_maker_certs_secret_name c.namespace key
        reader w

  -- `ca_cert`, and the client
  abbrev pub read_ca_cert :
      Config
      → (client_key client_cert : List ℕ) → K8sSecretsReader × W
      → Start Certificates × (K8sSecretsReader × W)
  read_ca_cert c client_key client_cert s = read_then (read_certificate c "ca.crt" s) λ ca_cert t.
      (ready (record { client_key = client_key; client_cert = client_cert; ca_cert = ca_cert }), t)

  abbrev pub read_client_cert :
      Config
      → (client_key : List ℕ) → K8sSecretsReader × W
      → Start Certificates × (K8sSecretsReader × W)
  read_client_cert c client_key s =
      read_then (read_certificate c "client.crt" s) (read_ca_cert c client_key)

  -- `_build_container_maker_client`, up to the channel that the client makes of the certificates.
  unfoldable pub build_container_maker_client :
      Config → K8sSecretsReader × W → Start Certificates × (K8sSecretsReader × W)
  unfolding read_cert_from_k8s_secret
  build_container_maker_client c s =
      read_then (read_certificate c "client.key" s) (read_client_cert c)
