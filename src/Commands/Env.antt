-- ===== src/Commands/Env.antt =====
-- What the handlers of device_agent/commands are given: a command, the two clients and the clock;
-- and what they return.
use browseterm_device_agent.Prelude.{ℕ, String, Bool, Option, none, some}
use browseterm_device_agent.Json.{Json, JsonText, Payload}
use browseterm_device_agent.Effects.{Action, Exc, maker_error, raise}
use browseterm_device_agent.Clients.Maker.{MakerApi}
use browseterm_device_agent.Clients.Cloud.{CloudClient}

-- The wire's CommandOperation, an open enumeration.
pub data Operation : Type 0 where
  create delete hibernate resume reconcile save : Operation
  other_operation : ℕ → Operation

-- The fields of an ExecuteCommand that the agent reads.
pub record ExecuteCommand : Type 0 where
  pub command_id : String
  pub operation : Operation
  pub container_id : String
  pub device_id : String
  pub placement_generation : ℕ
  pub container_config_json : JsonText
  pub trace_id : String

-- The outside world: the two clients, the clocks, `asyncio.sleep` in milliseconds, the settings
-- of the polling and of the reconnects, the digits beyond ASCII of Python's `isdigit`, and the
-- numbers of the operations on the wire. `monotonic` is `time.monotonic` in milliseconds, `now`
-- the time of a journal row, and `unix_ms` is `int(time.time() * 1000)`. `jitter` is
-- RECONNECT_JITTER_FRACTION in thousandths.
pub record Env (W : Type 0) : Type 0 where
  pub maker : MakerApi W
  pub cloud : CloudClient W
  pub monotonic : W → ℕ
  pub now : W → ℕ
  pub unix_ms : W → ℕ
  pub sleep : ℕ → W → W
  pub poll_interval : ℕ
  pub poll_timeout : ℕ
  pub jitter : ℕ
  pub digit_beyond_ascii : ℕ → Bool
  pub operation_number : Operation → ℕ

-- `(result, error_code, error_message)`
pub record Reply : Type 0 where
  pub result : Option Json
  pub error_code : Option String
  pub error_message : Option Payload

abbrev pub success : Json → Reply
success j = record { result = some j; error_code = none; error_message = none }

abbrev pub failure : String → Payload → Reply
failure code message = record {
  result = none;
  error_code = some code;
  error_message = some message;
}

abbrev pub Handler : Type 0 → Type 0
Handler W = ExecuteCommand → Action W Reply

-- `except ContainerMakerClientError as e`
abbrev pub on_maker_error : {W A : Type 0} → (String → Action W A) → Exc → Action W A
on_maker_error f (maker_error message) = f message
on_maker_error f e = raise e
