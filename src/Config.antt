-- ===== src/Config.antt =====
-- device_agent/config.py: the settings, each from its environment variable or its default. The
-- schedule of the backoff, which is a constant, is in Control.Backoff.
pub mod Numbers
pub mod RoundTrip
pub mod Loaded
pub mod Configured
use browseterm_device_agent.Prelude.{String, Bool, ℕ, Option, none, some, List, [], ◌∷◌}
use browseterm_device_agent.Text.{codes, lower}
use browseterm_device_agent.Json.{ℤ}
use browseterm_device_agent.Config.Numbers.{Unicode, Float, int, float, same_text}

-- `os.environ`
abbrev pub Environment : Type 0
Environment = String → Option String

-- `os.getenv(key, default)`
abbrev pub getenv : Environment → (key default : String) → String
getenv e key default = elim (e key) [ none ↦ default | some value ↦ value ]

-- `text.lower() == "true"`. No letter beyond ASCII has a lower case among the letters of the word.
unfoldable pub is_true : String → Bool
is_true s = same_text (lower (codes s)) (codes "true")

pub record Config : Type 0 where
  pub cloud_control_host : String
  pub cloud_control_port : ℤ
  pub cloud_control_tls : Bool
  pub device_id_file : String
  pub device_token_file : String
  pub agent_version : String
  pub protocol_version : String
  pub startup_id_file : String
  pub reconnect_jitter_fraction : Float
  pub heartbeat_interval_seconds : ℤ
  pub command_journal_path : String
  pub container_maker_host : String
  pub container_maker_port : ℤ
  pub container_maker_certs_secret_name : String
  pub namespace : String
  pub local_api_port : ℤ
  pub reconcile_on_startup : Bool
  pub snapshot_poll_interval_seconds : Float
  pub snapshot_poll_timeout_seconds : Float

-- The settings that are numbers.
pub record NumericSettings : Type 0 where
  pub cloud_control_port : ℤ
  pub reconnect_jitter_fraction : Float
  pub heartbeat_interval_seconds : ℤ
  pub container_maker_port : ℤ
  pub local_api_port : ℤ
  pub snapshot_poll_interval_seconds : Float
  pub snapshot_poll_timeout_seconds : Float

infixl 5 ◌>>=◌
abbrev ◌>>=◌ : {A B : Type 0} → Option A → (A → Option B) → Option B
none >>= f = none
some a >>= f = f a

-- One number that cannot be read ends the import.
abbrev pub collect :
    (cloud_port : Option ℤ) (jitter : Option Float) (heartbeat maker_port api_port : Option ℤ)
    (interval timeout : Option Float)
    → Option NumericSettings
collect cloud_port jitter heartbeat maker_port api_port interval timeout = do
  cloud_control_port ← cloud_port
  reconnect_jitter_fraction ← jitter
  heartbeat_interval_seconds ← heartbeat
  container_maker_port ← maker_port
  local_api_port ← api_port
  snapshot_poll_interval_seconds ← interval
  snapshot_poll_timeout_seconds ← timeout
  some (record {
    cloud_control_port = cloud_control_port;
    reconnect_jitter_fraction = reconnect_jitter_fraction;
    heartbeat_interval_seconds = heartbeat_interval_seconds;
    container_maker_port = container_maker_port;
    local_api_port = local_api_port;
    snapshot_poll_interval_seconds = snapshot_poll_interval_seconds;
    snapshot_poll_timeout_seconds = snapshot_poll_timeout_seconds;
  })

module _ (u : Unicode) (e : Environment) where
  abbrev pub int_setting : (key default : String) → Option ℤ
  int_setting key default = int u (getenv e key default)

  abbrev pub float_setting : (key default : String) → Option Float
  float_setting key default = float u (getenv e key default)

  unfoldable pub load_numbers : Option NumericSettings
  unfolding int float
  load_numbers =
      collect (int_setting "CLOUD_CONTROL_PORT" "443")
        (float_setting "RECONNECT_JITTER_FRACTION" "0.2")
        (int_setting "HEARTBEAT_INTERVAL_SECONDS" "20") (int_setting "CONTAINER_MAKER_PORT" "50052")
        (int_setting "LOCAL_API_PORT" "50061") (float_setting "SNAPSHOT_POLL_INTERVAL_SECONDS" "5")
        (float_setting "SNAPSHOT_POLL_TIMEOUT_SECONDS" "600")

  abbrev pub config_of : NumericSettings → Config
  config_of n = record {
    cloud_control_host = getenv e "CLOUD_CONTROL_HOST" "app.browseterm.puhtaeto.com";
    cloud_control_port = n.cloud_control_port;
    cloud_control_tls = is_true (getenv e "CLOUD_CONTROL_TLS" "true");
    device_id_file = getenv e "DEVICE_ID_FILE" "/etc/browseterm/device/device_id";
    device_token_file = getenv e "DEVICE_TOKEN_FILE" "/etc/browseterm/device/token";
    agent_version = getenv e "AGENT_VERSION" "0.1.0";
    protocol_version = getenv e "PROTOCOL_VERSION" "v1";
    startup_id_file = getenv e "STARTUP_ID_FILE" "/etc/browseterm/device/startup_id";
    reconnect_jitter_fraction = n.reconnect_jitter_fraction;
    heartbeat_interval_seconds = n.heartbeat_interval_seconds;
    command_journal_path =
        getenv e "COMMAND_JOURNAL_PATH" "/var/lib/browseterm/device-agent/journal.sqlite3";
    container_maker_host = getenv e "CONTAINER_MAKER_HOST" "container-maker-service";
    container_maker_port = n.container_maker_port;
    container_maker_certs_secret_name =
        getenv e "CONTAINER_MAKER_CERTS_SECRET_NAME" "container-maker-certs";
    namespace = getenv e "NAMESPACE" "browseterm";
    local_api_port = n.local_api_port;
    reconcile_on_startup = is_true (getenv e "RECONCILE_ON_STARTUP" "true");
    snapshot_poll_interval_seconds = n.snapshot_poll_interval_seconds;
    snapshot_poll_timeout_seconds = n.snapshot_poll_timeout_seconds;
  }

  -- The module as it is imported; `none` is the ValueError of a number that cannot be read.
  unfoldable pub load : Option Config
  unfolding load_numbers is_true
  load = load_numbers >>= λ n. some (config_of n)
