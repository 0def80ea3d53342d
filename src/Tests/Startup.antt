-- ===== src/Tests/Startup.antt =====
-- The theorems on the start of a process, on its log lines and on names, at concrete values.
use browseterm_device_agent.Prelude.{
  ℕ, ◌+◌, ◌≤◌, String, ◌≡◌, refl, true, false, none, some, List, [], ◌∷◌, map, arith,
}
use browseterm_device_agent.Json.{pos, negsuc, str, field, end, lookup_field}
use browseterm_device_agent.Effects.{ok}
use browseterm_device_agent.Config.{Config}
use browseterm_device_agent.Config.Numbers.{finite}
use browseterm_device_agent.State.Journal
use browseterm_device_agent.State.Journal.{JournalEntry, succeeded}
use browseterm_device_agent.State.Journal.Progress.{Keeps-refl}
use browseterm_device_agent.State.Journal.Schema
use browseterm_device_agent.State.Journal.Schema.{Table, without_generation, StoredRow, stored}
use browseterm_device_agent.Clients.K8sSecrets
use browseterm_device_agent.Clients.K8sSecrets.{
  SecretData, KubernetesApi, loaded, K8sSecretsReader, construct, pick, value, lookup,
}
use browseterm_device_agent.Clients.K8sSecrets.Base64.RoundTrip.{encode}
use browseterm_device_agent.Clients.K8sSecrets.Caching.{Request, read_all, read_all-direct}
use browseterm_device_agent.Commands.Name.{strip_container_maker_suffix}
use browseterm_device_agent.Commands.Name.Suffix.{strip_container_maker_suffix-name}
use browseterm_device_agent.Main.Startup.{Host, text, build_container_maker_client}
use browseterm_device_agent.Main.Startup.OneCall.{build_container_maker_client-one_call}
use browseterm_device_agent.Main.Once.{Finished}
use browseterm_device_agent.Main.Run.{Shell}
use browseterm_device_agent.Observability.Logging.{Context, LogRecord, payload_of}
use browseterm_device_agent.Observability.Logging.Lines.{said, lookup-payload_of}
use browseterm_device_agent.Tests.World.{World, calm, env, finished_entry}

abbrev secret_fields : List (String × List ℕ)
secret_fields =
    ("client.key", encode (107 ∷ 200 ∷ 1 ∷ 0 ∷ [])) ∷ ("client.crt", encode (99 ∷ [])) ∷ []

abbrev kubernetes : KubernetesApi World
kubernetes = record {
  load_incluster_config = λ w. (loaded, w);
  load_kube_config = λ w. (ok tt, w);
  read_namespaced_secret =
      λ name namespace w. (ok (some secret_fields), record w { processed = w.processed + 1 });
}

abbrev client_key : Request
client_key = record { secret_name = "certs"; namespace = "ns"; key = "client.key" }

abbrev ca : Request
ca = record { secret_name = "certs"; namespace = "ns"; key = "ca.crt" }

abbrev reader : K8sSecretsReader
reader = (construct kubernetes none calm).1.0

read_all-direct_example :
    read_all kubernetes (client_key ∷ ca ∷ client_key ∷ []) reader calm
    ≡ map (λ q. pick q.key q.secret_name (some secret_fields)) (client_key ∷ ca ∷ client_key ∷ [])
unfolding K8sSecrets.construct K8sSecrets.init
read_all-direct_example =
    read_all-direct kubernetes (λ name namespace. some secret_fields) (λ name namespace w. refl)
      (client_key ∷ ca ∷ client_key ∷ []) calm calm refl (refl, (refl, (refl, tt)))

abbrev pub host : Host World
host = record {
  read_file = λ path w. (text " dev\n", w);
  kubernetes = kubernetes;
  space_beyond_ascii = λ n. false;
}

abbrev pub settings : Config
settings = record {
  cloud_control_host = "cloud";
  cloud_control_port = pos 443;
  cloud_control_tls = true;
  device_id_file = "/id";
  device_token_file = "/token";
  agent_version = "0.1.0";
  protocol_version = "v1";
  startup_id_file = "/startup";
  reconnect_jitter_fraction = finite false 2 (negsuc 0);
  heartbeat_interval_seconds = pos 20;
  command_journal_path = "/journal";
  container_maker_host = "maker";
  container_maker_port = pos 50052;
  container_maker_certs_secret_name = "certs";
  namespace = "ns";
  local_api_port = pos 50061;
  reconcile_on_startup = true;
  snapshot_poll_interval_seconds = finite false 5 (pos 0);
  snapshot_poll_timeout_seconds = finite false 600 (pos 0);
}

build_container_maker_client-one_call_example :
    (build_container_maker_client host settings (reader, calm)).1.1.processed ≤ calm.processed + 1
build_container_maker_client-one_call_example =
    build_container_maker_client-one_call host (λ w. w.processed) (λ name namespace w. omega arith)
      settings reader calm

strip_container_maker_suffix-name_example :
    (strip_container_maker_suffix (λ n. false) "my-box-pod-42" ≡ "my-box")
    × (strip_container_maker_suffix (λ n. false) "my-box-pod" ≡ "my-box")
    × (strip_container_maker_suffix (λ n. false) "my-box-service" ≡ "my-box")
    × (strip_container_maker_suffix (λ n. false) "my-box-ingress" ≡ "my-box")
strip_container_maker_suffix-name_example =
    strip_container_maker_suffix-name (λ n. false) "my-box" "42" refl

-- A file of an earlier version, with a finished command.
abbrev old_row : StoredRow
old_row = record {
  command_id = "c1";
  operation = "Create";
  status = succeeded;
  result_json = some (str "done");
  error_code = none;
  error_message = none;
  reported_to_cloud = 0;
  created_at = 10;
  updated_at = 10;
}

abbrev pub file : Table
file = without_generation (old_row ∷ [])

abbrev pub old_entry : JournalEntry
old_entry = record finished_entry { placement_generation = 0 }

abbrev pub shell : Shell World
shell = record {
  connect = λ files certificates. env;
  start_server = λ address w. (ok tt, w);
  stop_server = λ w. (ok tt, w);
  close_container_maker_client = λ w. (ok tt, w);
  close_cloud_client = λ w. (ok tt, w);
  platform = 0;
  architecture = 0;
}

pub old_entry-Finished : Finished old_entry (stored file)
unfolding Journal.get Schema.row_to_entry
old_entry-Finished = record { terminal = refl; keeps = Keeps-refl old_entry (stored file) refl }

abbrev context : Context
context = record { request_id = "r1"; user = "u@x" }

-- The extra `user` takes the place of the context's.
abbrev line : LogRecord
line = record {
  timestamp = "2026-01-01T00:00:00+00:00";
  levelname = "INFO";
  name = "main";
  message = "main.starting";
  attributes = field "msg" (str "main.starting") (field "user" (str "other") end);
  exception = none;
}

lookup-payload_of_example :
    lookup_field "user" (payload_of "agent" context line) ≡ said "user" "agent" context line
lookup-payload_of_example = lookup-payload_of "user" "agent" context line
