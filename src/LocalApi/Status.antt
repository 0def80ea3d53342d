-- ===== src/LocalApi/Status.antt =====
-- The generation that a status report of local_api/service.py carries, after the executor has
-- updated the placement cache for a successful command.
use browseterm_device_agent.Prelude.{ℕ, some, ◌==◌, if◌then◌else◌}
use browseterm_device_agent.State.Placement.{PlacementCache}
use browseterm_device_agent.Commands.Env.{
  create, delete, hibernate, resume, reconcile, save, other_operation, ExecuteCommand,
}
use browseterm_device_agent.LocalApi.{StatusReport, generation_of}
use browseterm_device_agent.Agent.{Agent}

-- What a command makes of the generation: a placed container has the command's, a container that
-- is removed has the caller's again, and every other report is as before.
abbrev pub next_generation : StatusReport → ExecuteCommand → PlacementCache → ℕ
next_generation request command cache =
    let before = generation_of request (some cache) in
    let placed =
      (if command.container_id == ""
        then before
        else if command.container_id == request.container_id
        then command.placement_generation
        else before) in
    let removed =
      (if command.container_id == request.container_id
        then request.placement_generation
        else before) in
    elim command.operation [
      | create ↦ placed
      | resume ↦ placed
      | delete ↦ removed
      | hibernate ↦ removed
      | reconcile ↦ before
      | save ↦ before
      | other_operation n ↦ before
    ]
