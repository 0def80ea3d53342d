-- ===== src/Tests/Process.antt =====
-- The theorems on the settings, on whole processes and on the types of results, at concrete inputs.
use browseterm_device_agent.Prelude.{
  ℕ, String, ◌≡◌, refl, false, none, some, List, [], ◌∷◌, ◌==◌, ◌<>◌, All, arith, if◌then◌else◌,
}
use browseterm_device_agent.Text.{show}
use browseterm_device_agent.Json.{ℤ, Json, str, obj, field, end, doc, pos}
use browseterm_device_agent.Json.Access
use browseterm_device_agent.Clients.Maker
use browseterm_device_agent.Clients.Retry.{call_with_retry}
use browseterm_device_agent.Effects.{ok}
use browseterm_device_agent.Effects.Post.{Post}
use browseterm_device_agent.Config.{Environment, Config, getenv, load}
use browseterm_device_agent.Config.Numbers.{Unicode, int}
use browseterm_device_agent.Config.Configured.{load-IsSpelled}
use browseterm_device_agent.Control.Connection.Dial.{
  Dials, default_channel_factory, default_channel_factory-Dials,
}
use browseterm_device_agent.Commands.Env.{create, ExecuteCommand, Reply, success}
use browseterm_device_agent.Commands.Config.{placement_result}
use browseterm_device_agent.Commands.Create.{handle_create}
use browseterm_device_agent.Commands.Resume.{handle_resume}
use browseterm_device_agent.Commands.Executor.{register}
use browseterm_device_agent.Commands.Placing.{IsPlacement, placements-IsPlacement}
use browseterm_device_agent.Commands.Typing.{IsReply}
use browseterm_device_agent.Commands.Typing.Replies.{handlers-IsReply}
use browseterm_device_agent.Commands.Typing.Rows.{unfinished}
use browseterm_device_agent.Control.Connection.{resend}
use browseterm_device_agent.State.Journal.Schema.{stored}
use browseterm_device_agent.State.Journal.Progress.{Keeps}
use browseterm_device_agent.Channel.{secure_channel, target}
use browseterm_device_agent.Clients.K8sSecrets
use browseterm_device_agent.Clients.K8sSecrets.{construct}
use browseterm_device_agent.Clients.K8sSecrets.Base64.RoundTrip.{encode}
use browseterm_device_agent.Main.Run.{container_maker_channel}
use browseterm_device_agent.Main.Startup.{Host, Certificates, ready, build_container_maker_client}
use browseterm_device_agent.Main.Startup.Keys.{container_maker_channel-encode}
use browseterm_device_agent.Main.{handlers}
use browseterm_device_agent.Main.Process.Lives.{Life, live_all, live_all-Keeps}
use browseterm_device_agent.Main.Typed.Resent.{IsTypedResult, resend-IsTypedResult}
use browseterm_device_agent.Agent.{Agent, Message}
use browseterm_device_agent.Tests.World.{World, calm, env, agent, accepted_entry, command}
use browseterm_device_agent.Tests.Sessions.{session, later}
use browseterm_device_agent.Tests.Startup.{
  settings, host, shell, file, old_entry, old_entry-Finished,
}

abbrev ascii : Unicode
ascii = record { is_space = λ c. false; decimal = λ c. none }

-- "1" is not "true".
abbrev environment : Environment
environment key = if key == "CLOUD_CONTROL_TLS" then some "1" else none

abbrev unset : Environment
unset key = none

-- The numbers are spelled out, and the host of the Cloud is another.
abbrev spelled : Environment
spelled key =
    if key == "CLOUD_CONTROL_PORT"
    then some (show 8443)
    else if key == "HEARTBEAT_INTERVAL_SECONDS"
    then some (show 30)
    else if key == "CONTAINER_MAKER_PORT"
    then some (show 50052)
    else if key == "LOCAL_API_PORT"
    then some (show 0)
    else if key == "CLOUD_CONTROL_HOST"
    then some "cloud.local"
    else none

load-IsSpelled_example :
    (c : Config) × (load ascii spelled ≡ some c)
    × (c.heartbeat_interval_seconds ≡ pos 30)
    × (target c.cloud_control_host c.cloud_control_port ≡ "cloud.local" <> (":" <> show 8443))
    × (target c.container_maker_host c.container_maker_port
        ≡ "container-maker-service" <> (":" <> show 50052))
    × (target "[::]" c.local_api_port ≡ "[::]" <> (":" <> show 0))
load-IsSpelled_example =
    load-IsSpelled ascii spelled 8443 30 50052 0 refl refl refl
      (record { set_to = refl; fits = unfold show in omega arith })
      (record { set_to = refl; fits = unfold show in omega arith })
      (record { set_to = refl; fits = unfold show in omega arith })
      (record { set_to = refl; fits = unfold show in omega arith })

loaded-environment : (c : Config) × (load ascii environment ≡ some c)
unfolding load
loaded-environment = (_, refl)

default_channel_factory-Dials_example :
    (port : ℤ) × (int ascii (getenv environment "CLOUD_CONTROL_PORT" "443") ≡ some port)
    × Dials environment port (default_channel_factory loaded-environment.0)
default_channel_factory-Dials_example =
    default_channel_factory-Dials ascii environment loaded-environment.0 loaded-environment.1

abbrev complete : Json
complete = obj (
    field "image_name" (str "img") (
      field "saved_image" (str "img:1") (
        field "container_name" (str "box") (
          field "network_name" (str "net") (
            field "cpu_request" (str "1") (
              field "cpu_limit" (str "1") (
                field "memory_request" (str "1") (
                  field "memory_limit" (str "1") (
                    field "ephemeral_request" (str "1")
                      (field "ephemeral_limit" (str "1") end))))))))))

abbrev complete_command : ExecuteCommand
complete_command = record (command create "c9") { container_config_json = doc complete }

-- The pod is named box-pod.
abbrev created : Reply
created = success (
    placement_result "box" (str "net")
      (record { container_id = "pod-1"; container_name = "box-pod"; container_ip = none }))

created-replied : (handle_create env complete_command calm).0 ≡ ok created
unfolding handle_create Access.has_key Access.index Access.get Access.iterate Maker.build_create
    call_with_retry
created-replied = refl

resumed-replied : (handle_resume env complete_command calm).0 ≡ ok created
unfolding handle_resume Access.has_key Access.index Access.get Access.iterate Maker.build_create
    call_with_retry
resumed-replied = refl

placements-IsPlacement_example :
    IsPlacement env "image_name" complete_command calm created
      (handle_create env complete_command calm).1
    × IsPlacement env "saved_image" complete_command calm created
        (handle_resume env complete_command calm).1
placements-IsPlacement_example =
    placements-IsPlacement env complete_command calm created created created-replied resumed-replied

create-handler : handlers env create ≡ some (handle_create env)
unfolding handlers register
create-handler = refl

handlers-IsReply_example : Post (IsReply create) (handle_create env complete_command calm).0
handlers-IsReply_example =
    handlers-IsReply env create (handle_create env) (create-handler) complete_command calm

abbrev begun : Agent World
begun = record agent { journal = accepted_entry ∷ [] }

resend-IsTypedResult_example :
    (messages : List Message) × ((resend (later begun)).0 ≡ ok messages)
    × All IsTypedResult messages
resend-IsTypedResult_example = resend-IsTypedResult env (session begun) (unfinished refl, tt)

-- The default path of the journal.
abbrev journal_file : String
journal_file = "/var/lib/browseterm/device-agent/journal.sqlite3"

-- One process with the defaults, and one whose settings it cannot read.
abbrev life : Environment → Life World
life e = record {
  unicode = ascii;
  environment = e;
  host = host;
  shell = shell;
  rounds = [];
  world = calm;
}

abbrev broken : Environment
broken key = if key == "LOCAL_API_PORT" then some "port" else none

live_all-Keeps_example :
    Keeps old_entry (stored (live_all (life unset ∷ life broken ∷ []) (λ path. file) journal_file))
live_all-Keeps_example =
    live_all-Keeps old_entry journal_file (life unset ∷ life broken ∷ []) (λ path. file)
      old_entry-Finished

abbrev full_fields : List (String × List ℕ)
full_fields =
    ("client.key", encode (107 ∷ 200 ∷ []))
    ∷ ("client.crt", encode (99 ∷ []))
    ∷ ("ca.crt", encode (97 ∷ []))
    ∷ []

abbrev full_host : Host World
full_host = record host {
  kubernetes = record host.kubernetes {
    read_namespaced_secret = λ name namespace w. (ok (some full_fields), w);
  };
}

container_maker_channel-encode_example :
    (built : Certificates) × ((build_container_maker_client full_host settings
        ((construct full_host.kubernetes none calm).1.0, calm)).0
      ≡ ready built)
    × (container_maker_channel settings built
        ≡ secure_channel (target "maker" (pos 50052)) (record {
          root_certificates = some (97 ∷ []);
          private_key = some (107 ∷ 200 ∷ []);
          certificate_chain = some (99 ∷ []);
        }))
unfolding K8sSecrets.construct K8sSecrets.init K8sSecrets.lookup
container_maker_channel-encode_example =
    container_maker_channel-encode full_host settings full_fields (107 ∷ 200 ∷ []) (99 ∷ [])
      (97 ∷ []) calm calm refl refl refl refl refl (omega arith, (omega arith, tt))
      (omega arith, tt) (omega arith, tt)
