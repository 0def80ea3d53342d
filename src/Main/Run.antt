-- ===== src/Main/Run.antt =====
-- `run` of device_agent/main.py: the start, the loop, and what is closed when it is left. The
-- server of the local API is gRPC's; its calls reach the agent as events of the connections.
pub mod Kept
use browseterm_device_agent.Prelude.{ℕ, String, Bool, false, Option, none, some, List, []}
use browseterm_device_agent.Config.{Config}
use browseterm_device_agent.Channel.{Channel, target}
use browseterm_device_agent.Clients.Maker.Channel.{open_channel}
use browseterm_device_agent.Effects.{Action, Result, ok, err, Exc, ◌>>◌}
use browseterm_device_agent.State.Journal.Schema.{Table, init_schema, entries, stored}
use browseterm_device_agent.Clients.K8sSecrets.{K8sSecretsReader, SecretAnswer}
use browseterm_device_agent.Commands.Env.{Env}
use browseterm_device_agent.Control.Connection.{Identity, build_hello}
use browseterm_device_agent.Control.Connection.Loop.{
  Round, Loop, Exit, returned, cancelled_error, hanging, going, run_forever,
}
use browseterm_device_agent.Main.{on_execute_command}
use browseterm_device_agent.Main.Session.{restarted}
use browseterm_device_agent.Main.Startup.{
  Host, Start, ready, system_exit, secret_error, raised, Certificates, read_required_file,
  build_container_maker_client,
}
use browseterm_device_agent.Agent.{Agent, Message}
use browseterm_device_agent.State.Journal.{Journal}

pub record DeviceFiles : Type 0 where
  pub device_id : String
  pub device_token : String
  pub startup_id : String

-- The calls of gRPC and httpx at both ends of a run, the clients on their channels, and the constants
-- of the Hello.
pub record Shell (W : Type 0) : Type 0 where
  pub connect : DeviceFiles → (container_maker : Channel) → Env W
  pub start_server : (address : String) → Action W (Unit {0})
  pub stop_server : Action W (Unit {0})
  pub close_container_maker_client : Action W (Unit {0})
  pub close_cloud_client : Action W (Unit {0})
  pub platform : ℕ
  pub architecture : ℕ

-- How the process is: it has been left by one of these ways, or the loop goes on. A `value_error` is
-- that of a setting.
pub data ProcessEnd : Type 0 where
  finished cancelled running hung value_error : ProcessEnd
  exited : (exit_code : ℕ) → ProcessEnd
  secret_failed : SecretAnswer → ProcessEnd
  failed : Exc → ProcessEnd

-- The state that a start changes.
abbrev pub Starting : Type 0 → Type 0
Starting W = K8sSecretsReader × W

abbrev pub start_then : {S A B : Type 0} → Start A × S → (A → S → Start B × S) → Start B × S
start_then (r, s) f = elim r [
  | ready a ↦ f a s
  | system_exit n ↦ (system_exit n, s)
  | secret_error a ↦ (secret_error a, s)
  | raised e ↦ (raised e, s)
]

module _ {W : Type 0} (host : Host W) (c : Config) where
  abbrev pub required_file : (path : String) → Starting W → Start String × Starting W
  required_file path (reader, w) = let (r, v) = read_required_file host path w in (r, (reader, v))

  -- `except SystemExit`
  abbrev pub optional_file : Start String × Starting W → Start String × Starting W
  optional_file (system_exit n, s) = (ready "", s)
  optional_file r = r

  -- The three files.
  unfoldable pub identify : Starting W → Start DeviceFiles × Starting W
  unfolding read_required_file
  identify s = start_then (required_file c.device_id_file s) λ device_id s1.
      start_then (required_file c.device_token_file s1) λ device_token s2.
        start_then (optional_file (required_file c.startup_id_file s2)) λ startup_id s3. (
          ready (record {
            device_id = device_id;
            device_token = device_token;
            startup_id = startup_id;
          }),
          s3,
        )

-- `ContainerMakerClient(host=config.CONTAINER_MAKER_HOST, ...)`
abbrev pub container_maker_channel : Config → Certificates → Channel
container_maker_channel c certificates =
    open_channel c.container_maker_host c.container_maker_port certificates.client_key
      certificates.client_cert certificates.ca_cert

-- The device's environment: `CloudClient(device_id=device_id, ...)` and the other clients.
abbrev pub env_of : {W : Type 0} → Config → Shell W → DeviceFiles → Certificates → Env W
env_of c shell files certificates =
    let env = shell.connect files (container_maker_channel c certificates) in
    record env { cloud = record env.cloud { device_id = files.device_id } }

abbrev pub hello_of : {W : Type 0} → Config → Shell W → DeviceFiles → Message
hello_of c shell files = build_hello c.agent_version c.protocol_version (record {
  device_id = files.device_id;
  platform = shell.platform;
  architecture = shell.architecture;
  runtime_version = "";
  startup_id = files.startup_id;
})

-- `f"[::]:{config.LOCAL_API_PORT}"`
abbrev pub local_api_address : Config → String
local_api_address c = target "[::]" c.local_api_port

-- What a run leaves: `disk` is the rows that the journal's file holds.
pub record Left (W : Type 0) : Type 0 where
  pub outcome : ProcessEnd
  pub disk : Journal
  pub world : W

abbrev pub leave : {W : Type 0} → ProcessEnd → Journal → W → Left W
leave outcome disk w = record { outcome = outcome; disk = disk; world = w }

-- A call whose exception ends the run.
abbrev pub when_ok : {W : Type 0} → Result (Unit {0}) × W → Journal → (W → Left W) → Left W
when_ok (ok done, w) t f = f w
when_ok (err e, w) t f = leave (failed e) t w

module _ {W : Type 0} (host : Host W) (c : Config) (shell : Shell W) where
  -- The calls of `finally`.
  abbrev pub close_all : Action W (Unit {0})
  close_all = shell.stop_server >> shell.close_container_maker_client >> shell.close_cloud_client

  abbrev pub close_then : ProcessEnd → Agent W → Left W
  close_then outcome a = when_ok (close_all a.world) a.journal (leave outcome a.journal)

  abbrev pub leave_loop : Exit → Agent W → Left W
  leave_loop returned a = close_then finished a
  leave_loop cancelled_error a = close_then cancelled a
  leave_loop hanging a = leave hung a.journal a.world
  leave_loop going a = leave running a.journal a.world

  -- From `await local_api_server.start()` on.
  unfoldable pub serve : DeviceFiles → Certificates → List (Round W) → Journal → W → Left W
  unfolding run_forever
  serve files certificates rs t w =
      let env = env_of c shell files certificates in
      when_ok (shell.start_server (local_api_address c) w) t λ v.
        (let l =
            run_forever env (on_execute_command env) (hello_of c shell files) false rs
              (restarted t v) in
          leave_loop l.exit l.agent)

  -- The end of a start that fails.
  abbrev pub give_up : {A : Type 0} → Start A → Journal → W → (A → Left W) → Left W
  give_up (ready a) t w f = f a
  give_up (system_exit n) t w f = leave (exited n) t w
  give_up (secret_error a) t w f = leave (secret_failed a) t w
  give_up (raised e) t w f = leave (failed e) t w

  unfoldable pub run : List (Round W) → Table → Starting W → Left W
  unfolding identify build_container_maker_client serve init_schema
  run rs file s =
      let (files, s1) = identify host c s in
      give_up files (stored file) s1.1 λ device.
        (let t = entries (init_schema file) in
          let (certificates, s2) = build_container_maker_client host c s1 in
          give_up certificates t s2.1 λ known. serve device known rs t s2.1)
