-- ===== src/Control/Connection/Dial.antt =====
-- The channel that `ConnectionManager` of control/grpc_client.py opens to the Cloud.
use browseterm_device_agent.Prelude.{
  String, ℕ, ◌≡◌, ◌≢◌, refl, ap, ◌∙◌, List, [], ◌∷◌, inl, inr, Bool-cases, Option-cases, true,
  false, none, some, arith, if◌then◌else◌,
}
use browseterm_device_agent.Text.{codes, lower}
use browseterm_device_agent.Channel.{Channel, Credentials, secure_channel, insecure_channel, target}
use browseterm_device_agent.Json.{ℤ}
use browseterm_device_agent.Config.Numbers.{Unicode, int, same_text}
use browseterm_device_agent.Config.{
  Environment, Config, getenv, NumericSettings, is_true, load, config_of,
}
use browseterm_device_agent.Config.Loaded.{load-config_of}

abbrev pub default_credentials : Credentials
default_credentials = record {
  root_certificates = none;
  private_key = none;
  certificate_chain = none;
}

-- `_default_channel_factory`
unfoldable pub default_channel_factory : Config → Channel
default_channel_factory c =
    let address = target c.cloud_control_host c.cloud_control_port in
    if c.cloud_control_tls
    then secure_channel address default_credentials
    else insecure_channel address

-- The host and the port that the environment names.
abbrev pub address : Environment → (port : ℤ) → String
address e port = target (getenv e "CLOUD_CONTROL_HOST" "app.browseterm.puhtaeto.com") port

-- The channel that the environment asks for.
pub data Dials (e : Environment) (port : ℤ) : Channel → Type 0 where
  unset :
      e "CLOUD_CONTROL_TLS" ≡ none
      → Dials e port (secure_channel (address e port) default_credentials)
  on :
      (text : String)
      → e "CLOUD_CONTROL_TLS" ≡ some text
      → lower (codes text) ≡ codes "true"
      → Dials e port (secure_channel (address e port) default_credentials)
  off :
      (text : String)
      → e "CLOUD_CONTROL_TLS" ≡ some text
      → lower (codes text) ≢ codes "true"
      → Dials e port (insecure_channel (address e port))

getenv-unset :
    (e : Environment) (key default : String) → e key ≡ none → getenv e key default ≡ default
getenv-unset e key default h = rw (getenv, h) refl

getenv-set :
    (e : Environment) (key default text : String) → e key ≡ some text → getenv e key default ≡ text
getenv-set e key default text h = rw (getenv, h) refl

module _ (c : Config) where
  dials-tls :
      c.cloud_control_tls ≡ true
      → default_channel_factory c
        ≡ secure_channel (target c.cloud_control_host c.cloud_control_port) default_credentials
  unfolding default_channel_factory
  dials-tls h = rw h refl

  dials-plain :
      c.cloud_control_tls ≡ false
      → default_channel_factory c
        ≡ insecure_channel (target c.cloud_control_host c.cloud_control_port)
  unfolding default_channel_factory
  dials-plain h = rw h refl

same_text-same : (xs ys : List ℕ) → same_text xs ys ≡ true → xs ≡ ys
same_text-same [] [] h = refl
same_text-same [] (y ∷ ys) h = cc
same_text-same (x ∷ xs) [] h = cc
same_text-same (x ∷ xs) (y ∷ ys) h = ground (arith, same_text-same xs ys)

is_true-true : (text : String) → lower (codes text) ≡ codes "true" → is_true text ≡ true
unfolding is_true
is_true-true text h = rw h refl

lower-true : (text : String) → is_true text ≡ true → lower (codes text) ≡ codes "true"
unfolding is_true
lower-true text h = same_text-same _ _ h

module _ (u : Unicode) (e : Environment) (n : NumericSettings) where
  abbrev key : String
  key = "CLOUD_CONTROL_TLS"

  config_of-Dials : Dials e n.cloud_control_port (default_channel_factory (config_of u e n))
  config_of-Dials = elim (Option-cases (e key)) [
    | inl absent ↦
        rw
          (dials-tls (config_of u e n)
            (ap is_true (getenv-unset e key "true" absent) ∙ is_true-true "true" refl))
          (Dials.unset absent)
    | inr (text, set_to) ↦ elim (Bool-cases (is_true text)) [
      | inl reads ↦
          rw
            (dials-tls (config_of u e n) (ap is_true (getenv-set e key "true" text set_to) ∙ reads))
            (Dials.on text set_to (lower-true text reads))
      | inr other ↦
          rw
            (dials-plain (config_of u e n)
              (ap is_true (getenv-set e key "true" text set_to) ∙ other))
            (Dials.off text set_to (λ same. cc (is_true-true text same)))
    ]
  ]

-- If the settings can be loaded, the agent dials the host and the port that the environment names,
-- over TLS if CLOUD_CONTROL_TLS is unset or reads "true" in small or capital letters, and without
-- TLS if it is set to any other text, also to "1", "yes" or a "true" with a space.
pub default_channel_factory-Dials :
    (u : Unicode) (e : Environment) (c : Config)
    → load u e ≡ some c
    → (port : ℤ) × (int u (getenv e "CLOUD_CONTROL_PORT" "443") ≡ some port)
      × Dials e port (default_channel_factory c)
default_channel_factory-Dials u e c h =
    let (n, r, same) = load-config_of u e c h in
    (n.cloud_control_port, r.cloud_port, rw same (config_of-Dials u e n))
