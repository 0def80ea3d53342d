-- ===== src/Tests/Refusals.antt =====
-- The theorem on the calls of the local API while the Cloud cannot be reached.
use browseterm_device_agent.Json.{null}
use browseterm_device_agent.Effects.{err, http_error, connect_error}
use browseterm_device_agent.Clients.Cloud.{CloudClient}
use browseterm_device_agent.LocalApi.Relayed.{
  active_container_ids, reconcile_resources, idle_containers, snapshot_allocation, snapshot_result,
  container_json, container_kubernetes_id,
}
use browseterm_device_agent.LocalApi.Aborts.{IsAborted, calls-IsAborted}
use browseterm_device_agent.Tests.World.{World, wait, agent}

abbrev unreachable : CloudClient World
unreachable = record {
  device_id = "dev";
  api = record { send = λ r w. (err (http_error connect_error "refused"), w); pause = wait };
}

calls-IsAborted_example :
    IsAborted (active_container_ids unreachable agent).0
    × IsAborted (reconcile_resources unreachable null null agent).0
    × IsAborted (idle_containers unreachable 60 agent).0
    × IsAborted (snapshot_allocation unreachable "k1" "s1" agent).0
    × IsAborted (snapshot_result unreachable "k1" "s1" "failed" "" "" "no space" agent).0
    × IsAborted (container_json unreachable "k1" agent).0
    × IsAborted (container_kubernetes_id unreachable "k1" "s1" agent).0
calls-IsAborted_example =
    calls-IsAborted unreachable (λ r w. tt) agent null null 60 "k1" "s1" "failed" "" "" "no space"
