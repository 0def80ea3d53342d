-- ===== src/Config/Configured.antt =====
-- An environment whose numbers are decimal texts is loaded by device_agent/config.py, and what it says
-- comes back in the addresses.
use browseterm_device_agent.Prelude.{ℕ, ◌≤◌, String, ◌≡◌, refl, false, none, some, length, ◌<>◌}
use browseterm_device_agent.Text.{codes, show}
use browseterm_device_agent.Json.{pos, negsuc}
use browseterm_device_agent.Channel.{target, show_int}
use browseterm_device_agent.Config.Numbers.{Unicode, finite, float}
use browseterm_device_agent.Config.{
  Environment, Config, NumericSettings, getenv, int_setting, float_setting, load, load_numbers,
  config_of,
}
use browseterm_device_agent.Config.RoundTrip.{int-show}

-- The variable is the decimal text of the number, of no more digits than Python reads.
pub record IsSpelled (e : Environment) (key : String) (n : ℕ) : Type 0 where
  pub set_to : e key ≡ some (show n)
  pub fits : length (codes (show n)) ≤ 4300

module _ (u : Unicode) (e : Environment) where
  int_setting-IsSpelled :
      (key default : String) (n : ℕ)
      → IsSpelled e key n
      → int_setting u e key default ≡ some (pos n)
  int_setting-IsSpelled key default n s = rw (getenv, s.set_to) (int-show u n s.fits)

  float_setting-unset :
      (key default : String) → e key ≡ none → float_setting u e key default ≡ float u default
  float_setting-unset key default h = rw (getenv, h) refl

-- The numbers of such an environment.
abbrev pub numbers : (cloud_port heartbeat maker_port api_port : ℕ) → NumericSettings
numbers cloud_port heartbeat maker_port api_port = record {
  cloud_control_port = pos cloud_port;
  reconnect_jitter_fraction = finite false 2 (negsuc 0);
  heartbeat_interval_seconds = pos heartbeat;
  container_maker_port = pos maker_port;
  local_api_port = pos api_port;
  snapshot_poll_interval_seconds = finite false 5 (pos 0);
  snapshot_poll_timeout_seconds = finite false 600 (pos 0);
}

module _ (u : Unicode) (e : Environment) (cloud_port heartbeat maker_port api_port : ℕ)
    (jitter : e "RECONNECT_JITTER_FRACTION" ≡ none)
    (interval : e "SNAPSHOT_POLL_INTERVAL_SECONDS" ≡ none)
    (timeout : e "SNAPSHOT_POLL_TIMEOUT_SECONDS" ≡ none) where
  load_numbers-IsSpelled :
      IsSpelled e "CLOUD_CONTROL_PORT" cloud_port
      → IsSpelled e "HEARTBEAT_INTERVAL_SECONDS" heartbeat
      → IsSpelled e "CONTAINER_MAKER_PORT" maker_port
      → IsSpelled e "LOCAL_API_PORT" api_port
      → load_numbers u e ≡ some (numbers cloud_port heartbeat maker_port api_port)
  unfolding load_numbers
  load_numbers-IsSpelled c h m a =
      rw
        (
          int_setting-IsSpelled u e "CLOUD_CONTROL_PORT" "443" cloud_port c,
          int_setting-IsSpelled u e "HEARTBEAT_INTERVAL_SECONDS" "20" heartbeat h,
          int_setting-IsSpelled u e "CONTAINER_MAKER_PORT" "50052" maker_port m,
          int_setting-IsSpelled u e "LOCAL_API_PORT" "50061" api_port a,
          float_setting-unset u e "RECONNECT_JITTER_FRACTION" "0.2" jitter,
          float_setting-unset u e "SNAPSHOT_POLL_INTERVAL_SECONDS" "5" interval,
          float_setting-unset u e "SNAPSHOT_POLL_TIMEOUT_SECONDS" "600" timeout,
        )
        refl

  -- If the four variables of integers are set to the decimal texts of numbers, of 4300 digits at
  -- most, and those of floats are unset, then the settings are loaded, whatever the other variables
  -- are, and the three addresses that are made of them have the very texts of the environment.
  pub load-IsSpelled :
      IsSpelled e "CLOUD_CONTROL_PORT" cloud_port
      → IsSpelled e "HEARTBEAT_INTERVAL_SECONDS" heartbeat
      → IsSpelled e "CONTAINER_MAKER_PORT" maker_port
      → IsSpelled e "LOCAL_API_PORT" api_port
      → (c : Config) × (load u e ≡ some c)
        × (c.heartbeat_interval_seconds ≡ pos heartbeat)
        × (target c.cloud_control_host c.cloud_control_port
            ≡ getenv e "CLOUD_CONTROL_HOST" "app.browseterm.puhtaeto.com"
              <> (":" <> show cloud_port))
        × (target c.container_maker_host c.container_maker_port
            ≡ getenv e "CONTAINER_MAKER_HOST" "container-maker-service" <> (":" <> show maker_port))
        × (target "[::]" c.local_api_port ≡ "[::]" <> (":" <> show api_port))
  unfolding load show_int
  load-IsSpelled c h m a = (
    config_of u e (numbers cloud_port heartbeat maker_port api_port),
    rw (load_numbers-IsSpelled c h m a) refl,
    refl,
    refl,
    refl,
    refl,
  )
