-- ===== src/Tests/Clients.antt =====
-- The theorems on device_agent/clients and device_agent/control at concrete inputs.
use browseterm_device_agent.Prelude.{
  ◌+◌, ℕ, zero, suc, ◌*◌, ◌≤◌, ◌≡◌, refl, false, none, some, [], ◌∷◌, arith, map, String,
}
use browseterm_device_agent.Json.Access.{iterate}
use browseterm_device_agent.Json.{Json, str, null, nil, arr, obj, end}
use browseterm_device_agent.Effects.{
  Action, HttpFault, connect_error, connect_timeout, http_error, Result, ok, err, rpc_error,
  unavailable,
}
use browseterm_device_agent.Clients.Cloud.{CloudClient, HttpRequest}
use browseterm_device_agent.Clients.Cloud.Calls.{consume_terminal_ticket}
use browseterm_device_agent.Clients.Cloud.Once.{Submits, consume_terminal_ticket-once}
use browseterm_device_agent.Commands.Env.{create}
use browseterm_device_agent.LocalApi.{StatusReport}
use browseterm_device_agent.Clients.Retry.{Policy, retry_from, call_with_retry}
use browseterm_device_agent.Clients.Retry.Bounds.{Ends, scripted, call_with_retry-Ends}
use browseterm_device_agent.Clients.Maker.{
  MakerApi, is_retryable, build_create, publish_all, create_container, delete_container,
  save_container, CreateArguments,
}
use browseterm_device_agent.Clients.Maker.Once.{SeesOnce, calls-IsRepeated}
use browseterm_device_agent.State.Journal.{get, unreported_terminal_entries}
use browseterm_device_agent.Control.Backoff.{base, backoff_seconds, backoff_seconds-bounds}
use browseterm_device_agent.Control.Connection.{
  build_unreported_results, hello_accepted, resend, open_stream, handle_inbound,
}
use browseterm_device_agent.Control.Connection.Messages.{
  message_of, build_unreported_results-messages,
}
use browseterm_device_agent.Control.Connection.Session.{resend-acknowledged, acknowledged-stale}
use browseterm_device_agent.Main.{on_execute_command}
use browseterm_device_agent.Tests.World.{wait, World, stormy, env, rows, rows-IsUnique, agent}

-- Unavailable twice, then an answer.
abbrev script : ℕ → Result String
script zero = err (rpc_error (some unavailable) "down")
script (suc zero) = err (rpc_error (some unavailable) "down")
script (suc (suc n)) = ok "done"

abbrev counting : Policy ℕ
counting = record {
  is_retryable = is_retryable;
  max_attempts = 3;
  base_delay = 500;
  max_delay = 5000;
  pause = λ ms n. n;
}

call_with_retry-Ends_example : Ends counting script 0 (call_with_retry counting (scripted script) 0)
call_with_retry-Ends_example = call_with_retry-Ends counting script (λ ms n. refl) (omega arith)

abbrev box : CreateArguments
box = record {
  image_name = str "img";
  container_name = str "box";
  network_name = str "net";
  exposure_level = null;
  publish_information = arr nil;
  environment_variables = obj end;
  cpu_request = str "1";
  cpu_limit = str "1";
  memory_request = str "1";
  memory_limit = str "1";
  ephemeral_request = str "1";
  ephemeral_limit = str "1";
  snapshot_size_limit = null;
  request_id = "t1";
}

-- A Container Maker that processes every request, and whose connection is lost after so many of them.
record Unsteady : Type 0 where
  lost : ℕ
  processed : ℕ
  unavailable_answers : ℕ

abbrev unsteady : {A : Type 0} → A → Action Unsteady A
unsteady a w = elim w.lost [
  | zero ↦ (ok a, record w { processed = w.processed + 1 })
  | suc n ↦ (
    err (rpc_error (some unavailable) "connection lost"),
    record {
      lost = n;
      processed = w.processed + 1;
      unavailable_answers = w.unavailable_answers + 1;
    },
  )
]

unsteady-counted :
    {A : Type 0} (a : A) (w : Unsteady) (message : String)
    → (unsteady a w).0 ≡ err (rpc_error (some unavailable) message)
    → (unsteady a w).1.unavailable_answers ≡ w.unavailable_answers + 1
unsteady-counted a w message h = ground arith

unsteady-kept :
    {A : Type 0} (a : A) (w : Unsteady)
    → w.unavailable_answers ≤ (unsteady a w).1.unavailable_answers
unsteady-kept a w = ground arith

unsteady-once : {A : Type 0} (a : A) (w : Unsteady) → (unsteady a w).1.processed ≤ w.processed + 1
unsteady-once a w = ground arith

unsteady-SeesOnce :
    {A : Type 0} (a : A)
    → SeesOnce (λ (w : Unsteady). w.processed) (λ w. w.unavailable_answers) (unsteady a)
unsteady-SeesOnce a = record {
  counted = unsteady-counted a;
  kept = unsteady-kept a;
  once = unsteady-once a;
}

abbrev unsteady_maker : MakerApi Unsteady
unsteady_maker = record {
  refuse_create = λ r. none;
  refuse = λ r. none;
  create = λ r id.
      unsteady (record { container_id = "pod-1"; container_name = "box-pod"; container_ip = none });
  delete = λ r id. unsteady (record { container_id = r.container_id; status = "deleted" });
  save = λ r id. unsteady (record { pod_name = "box-pod"; namespace_name = "ns" } ∷ []);
  pause = λ ms w. w;
}

abbrev losing_one : Unsteady
losing_one = record { lost = 1; processed = 0; unavailable_answers = 0 }

-- A create whose first answer is lost is processed twice.
created_twice : (create_container unsteady_maker box losing_one).1.processed ≡ 2
unfolding create_container build_create publish_all iterate call_with_retry retry_from is_retryable
created_twice = refl

abbrev net : Json
net = str "net"

calls-IsRepeated_example :
    ((create_container unsteady_maker box losing_one).1.processed + 0
      ≤ 1 + (create_container unsteady_maker box losing_one).1.unavailable_answers)
    × ((delete_container unsteady_maker "k1" net "t1" losing_one).1.processed + 0
        ≤ 1 + (delete_container unsteady_maker "k1" net "t1" losing_one).1.unavailable_answers)
    × ((save_container unsteady_maker "k1" net "t1" losing_one).1.processed + 0
        ≤ 1 + (save_container unsteady_maker "k1" net "t1" losing_one).1.unavailable_answers)
calls-IsRepeated_example =
    calls-IsRepeated unsteady_maker (λ (w : Unsteady). w.processed) (λ w. w.unavailable_answers)
      (λ ms w. (refl, refl)) "t1" losing_one box "k1" net (λ r. unsteady-SeesOnce _)
      (λ r. unsteady-SeesOnce _) (λ r. unsteady-SeesOnce _)

backoff_seconds-bounds_example :
    let delay = backoff_seconds 200 (λ r. r) 9 in
    (1000 * 30000 ≤ 1000 * delay + 200 * 30000)
    × (1000 * delay ≤ 1000 * 30000 + 200 * 30000)
    × (800 ≤ delay)
    × (delay ≤ 30 * 1200)
unfolding base
backoff_seconds-bounds_example = backoff_seconds-bounds 200 (λ r. r) 9 (λ r. omega arith)

build_unreported_results-messages_example :
    build_unreported_results rows ≡ ok (map message_of (unreported_terminal_entries rows))
build_unreported_results-messages_example = build_unreported_results-messages rows

resend-acknowledged_example :
    unreported_terminal_entries
      (handle_inbound env
        (on_execute_command env)
        (hello_accepted 1 false)
        (resend agent).1).1.journal
    ≡ []
resend-acknowledged_example =
    resend-acknowledged env (on_execute_command env) 1 false agent rows-IsUnique

acknowledged-stale_example :
    let b =
      (handle_inbound env
        (on_execute_command env)
        (hello_accepted 1 false)
        (open_stream agent)).1 in
    (b.outbound ≡ some []) × (get "c1" (unreported_terminal_entries b.journal) ≡ none)
acknowledged-stale_example =
    acknowledged-stale env (on_execute_command env) 1 false agent rows-IsUnique "c1" refl

-- A Cloud that cannot be connected to while the outage lasts.
abbrev flaky : CloudClient World
flaky = record {
  device_id = "dev";
  api = record {
    send = λ r w. elim w.outage [
      | zero ↦ (
        ok (record { status_code = 200; body = some (obj end); text = "" }),
        record w { processed = w.processed + 1 },
      )
      | suc n ↦ (err (http_error connect_error "refused"), record w { outage = n })
    ];
    pause = wait;
  };
}

unconnected :
    (r : HttpRequest) (w : World) (message : String) (fault : HttpFault)
    → (flaky.api.send r w).0 ≡ err (http_error fault message)
    → (flaky.api.send r w).1.processed ≡ w.processed
unconnected r w message fault h = ground arith

submitted : (r : HttpRequest) (w : World) → (flaky.api.send r w).1.processed ≤ w.processed + 1
submitted r w = ground arith

flaky-Submits : Submits flaky (λ (w : World). w.processed)
flaky-Submits = record {
  unconnected = λ r w message. unconnected r w message connect_error;
  timed_out = λ r w message. unconnected r w message connect_timeout;
  once = submitted;
  quiet = λ ms w. refl;
}

consume_terminal_ticket-once_example : (consume_terminal_ticket flaky "k" stormy).1.processed ≤ 1
consume_terminal_ticket-once_example =
    consume_terminal_ticket-once flaky (λ (w : World). w.processed) flaky-Submits "k" stormy

abbrev observed : StatusReport
observed = record {
  container_id = "k1";
  placement_generation = 0;
  observed_status = "Running";
  kubernetes_id = "pod-1";
}
