-- ===== src/Config/Loaded.antt =====
-- What the settings are that device_agent/config.py loads.
use browseterm_device_agent.Prelude.{◌≡◌, Option, some, arith, inl, inr, Option-cases}
use browseterm_device_agent.Json.{ℤ}
use browseterm_device_agent.Config.Numbers.{Unicode, Float}
use browseterm_device_agent.Config.{
  Environment, Config, NumericSettings, collect, config_of, load, load_numbers, int_setting,
}

-- The numbers of the settings are those that were read.
pub record Read (u : Unicode) (e : Environment) (n : NumericSettings) : Type 0 where
  pub cloud_port : int_setting u e "CLOUD_CONTROL_PORT" "443" ≡ some n.cloud_control_port
  pub maker_port : int_setting u e "CONTAINER_MAKER_PORT" "50052" ≡ some n.container_maker_port
  pub api_port : int_setting u e "LOCAL_API_PORT" "50061" ≡ some n.local_api_port

collect-some :
    (a : Option ℤ) (b : Option Float) (c d e : Option ℤ) (f g : Option Float) (n : NumericSettings)
    → collect a b c d e f g ≡ some n
    → (a ≡ some n.cloud_control_port)
      × (d ≡ some n.container_maker_port)
      × (e ≡ some n.local_api_port)
collect-some (some a) (some b) (some c) (some d) (some e) (some f) (some g) n h = ground arith
collect-some a b c d e f g n h = ground arith

module _ (u : Unicode) (e : Environment) where
  load_numbers-Read : (n : NumericSettings) → load_numbers u e ≡ some n → Read u e n
  unfolding load_numbers
  load_numbers-Read n h =
      let (a, b, d) = collect-some _ _ _ _ _ _ _ n h in
      record { cloud_port = a; maker_port = b; api_port = d }

  -- The settings are the texts of the environment, and the numbers that were read from them.
  pub load-config_of :
      (c : Config) → load u e ≡ some c → (n : NumericSettings) × Read u e n × (c ≡ config_of u e n)
  unfolding load
  load-config_of c h = elim (Option-cases (load_numbers u e)) [
    | inl absent ↦ absurd (ground (arith, h))
    | inr (n, k) ↦ (n, load_numbers-Read n k, ground (arith, h, k))
  ]
