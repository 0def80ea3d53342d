-- ===== src/Tests/World.antt =====
-- A concrete outside world: a clock, a number of calls for which Container Maker is unavailable, a
-- count of the requests that it has processed, and a Cloud that confirms every save.
use browseterm_device_agent.Prelude.{
  ℕ, zero, suc, ◌+◌, String, ◌≡◌, refl, false, none, some, [], ◌∷◌, arith,
}
use browseterm_device_agent.Json.{Json, str, obj, field, end, doc}
use browseterm_device_agent.Effects.{Action, ok, err, stuck, rpc_error, unavailable}
use browseterm_device_agent.Clients.Maker.{MakerApi}
use browseterm_device_agent.Clients.Cloud.{CloudClient}
use browseterm_device_agent.Commands.Env.{
  Operation, create, delete, hibernate, resume, reconcile, save, other_operation, ExecuteCommand,
  Env,
}
use browseterm_device_agent.Commands.Ends.{Live}
use browseterm_device_agent.State.Journal.{get, Journal, JournalEntry, fresh_entry, succeeded}
use browseterm_device_agent.State.Journal.Unique.{IsUnique}
use browseterm_device_agent.Agent.{Agent}

pub record World : Type 0 where
  pub clock : ℕ
  pub outage : ℕ
  pub processed : ℕ

-- A request of Container Maker that is answered by `a`.
abbrev pub served : {A : Type 0} → A → Action World A
served a w = elim w.outage [
  | zero ↦ (ok a, record w { processed = w.processed + 1 })
  | suc n ↦ (err (rpc_error (some unavailable) "down"), record w { outage = n })
]

abbrev pub wait : ℕ → World → World
wait ms w = record w { clock = w.clock + suc ms }

abbrev pub maker : MakerApi World
maker = record {
  refuse_create = λ r. none;
  refuse = λ r. none;
  create = λ r id.
      served (record { container_id = "pod-1"; container_name = "box-pod"; container_ip = none });
  delete = λ r id. served (record { container_id = r.container_id; status = "deleted" });
  save = λ r id. served (record { pod_name = "box-pod"; namespace_name = "ns" } ∷ []);
  pause = wait;
}

abbrev pub confirmation : Json
confirmation = obj (field "status" (str "Succeeded") (field "image_reference" (str "img:1") end))

abbrev pub cloud : CloudClient World
cloud = record {
  device_id = "dev";
  api = record {
    send = λ r w. (
      ok (record { status_code = 200; body = some confirmation; text = "" }),
      record w { clock = w.clock + 1 },
    );
    pause = wait;
  };
}

abbrev pub number : Operation → ℕ
number create = 1
number delete = 2
number hibernate = 3
number resume = 4
number reconcile = 5
number save = 6
number (other_operation n) = n

abbrev pub env : Env World
env = record {
  maker = maker;
  cloud = cloud;
  monotonic = λ w. w.clock;
  now = λ w. w.clock;
  unix_ms = λ w. w.clock;
  sleep = wait;
  poll_interval = 2000;
  poll_timeout = 900000;
  jitter = 200;
  digit_beyond_ascii = λ n. false;
  operation_number = number;
}

abbrev pub calm : World
calm = record { clock = 100; outage = 0; processed = 0 }

-- Container Maker is down for the next two calls.
abbrev pub stormy : World
stormy = record { clock = 100; outage = 2; processed = 0 }

-- It is down for more calls than are tried.
abbrev pub down : World
down = record { clock = 100; outage = 7; processed = 0 }

served-ends : {A : Type 0} (a : A) (w : World) → (served a w).0 ≡ err stuck → ⊥
served-ends a w h = ground arith

pub env-Live : Live env
env-Live = record {
  maker = record {
    create = λ r id. served-ends _;
    delete = λ r id. served-ends _;
    save = λ r id. served-ends _;
  };
  cloud = record {
    answers = λ r w s. cc;
    forwards = λ r w. omega arith;
    sleeps = λ w. omega arith;
  };
}

-- A finished command and one that is under way.
abbrev pub finished_entry : JournalEntry
finished_entry = record (fresh_entry 10 "c1" "Create" 3) {
  status = succeeded;
  result_json = some (str "done");
}

abbrev pub accepted_entry : JournalEntry
accepted_entry = fresh_entry 20 "c2" "Hibernate" 4

abbrev pub rows : Journal
rows = finished_entry ∷ accepted_entry ∷ []

pub rows-IsUnique : IsUnique rows
unfolding get
rows-IsUnique = (refl, (refl, tt))

abbrev pub agent : Agent World
agent = record {
  journal = rows;
  placement_cache = some [];
  outbound = some [];
  pending_resend_ids = "c1" ∷ [];
  world = stormy;
}

abbrev pub command : Operation → String → ExecuteCommand
command operation id = record {
  command_id = id;
  operation = operation;
  container_id = "k1";
  device_id = "dev";
  placement_generation = 5;
  container_config_json = doc (obj (field "network_name" (str "net") end));
  trace_id = "t1";
}
