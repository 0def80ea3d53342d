-- ===== src/Commands/Executor.antt =====
-- commands/executor.py
pub mod Rules
pub mod Settles
pub mod Holds
pub mod Terminal
pub mod Ordering
pub mod Isolation
pub mod Queue
use browseterm_device_agent.Prelude.{
  ℕ, String, Bool, true, false, Option, none, some, List, [], ◌∷◌, ◌<>◌, eqb, member, if◌then◌else◌,
}
use browseterm_device_agent.Text.{take_chars, show}
use browseterm_device_agent.Json.{Json, plain}
use browseterm_device_agent.Effects.{
  Action, Result, ok, err, Exc, maker_error, cloud_error, rpc_error, http_error, other, stuck,
  transport, unexpected_status, pure, raise, handle, ◌>>=◌,
}
use browseterm_device_agent.State.Journal.{
  CommandStatus, succeeded, failed, Outcome, has_seen, record_accepted, record_running,
  record_result,
}
use browseterm_device_agent.State.Placement.{PlacementCache, record_placement, forget}
use browseterm_device_agent.Commands.Env.{
  Operation, create, delete, hibernate, resume, reconcile, save, other_operation, ExecuteCommand,
  Env, Reply, Handler,
}
use browseterm_device_agent.Commands.Name.{operation_name}
use browseterm_device_agent.Agent.{Agent, outside, on_journal}

-- `str(e)`
unfoldable pub exc_text : Exc → String
unfolding show
exc_text (maker_error message) = message
exc_text (cloud_error (transport message)) = "Cloud API error: " <> message
exc_text (cloud_error (unexpected_status n)) = "Cloud API error: unexpected status " <> show n
exc_text (rpc_error code message) = message
exc_text (http_error fault message) = message
exc_text (other message) = message
exc_text stuck = ""

-- The dictionary `_handlers`.
abbrev pub Handlers : Type 0 → Type 0
Handlers W = Operation → Option (Handler W)

-- Of a new executor.
abbrev pub no_handlers : {W : Type 0} → Handlers W
no_handlers operation = none

abbrev same_operation : Operation → Operation → Bool
same_operation create create = true
same_operation delete delete = true
same_operation hibernate hibernate = true
same_operation resume resume = true
same_operation reconcile reconcile = true
same_operation save save = true
same_operation (other_operation m) (other_operation n) = eqb m n
same_operation _ _ = false

unfoldable pub register : {W : Type 0} → Operation → Handler W → Handlers W → Handlers W
register operation handler handlers o =
    if same_operation operation o then some handler else handlers o

-- `report_result(command_id, status, placement_generation, result, error_code, error_message)`
abbrev pub Report : Type 0 → Type 0
Report W = (command_id : String) (placement_generation : ℕ) → Outcome → Action (Agent W) (Unit {0})

abbrev pub failed_with : (code message : String) → Outcome
failed_with code message = record {
  status = failed;
  result = none;
  error_code = some code;
  error_message = some (plain message);
}

-- What a reply of a handler is recorded as.
unfoldable pub outcome_of : Reply → Outcome
outcome_of reply = elim reply.error_code [
  | none ↦ record {
    status = succeeded;
    result = reply.result;
    error_code = none;
    error_message = none;
  }
  | some code ↦ record {
    status = failed;
    result = none;
    error_code = some code;
    error_message = reply.error_message;
  }
]

-- `_PLACING_OPERATIONS` and `_UNPLACING_OPERATIONS`
abbrev pub placing_operations : List String
placing_operations = "Create" ∷ "Resume" ∷ []

abbrev pub unplacing_operations : List String
unplacing_operations = "Delete" ∷ "Hibernate" ∷ []

-- `_update_placement_cache`
unfoldable pub update_placement : ExecuteCommand → Option PlacementCache → Option PlacementCache
unfolding operation_name
update_placement command none = none
update_placement command (some cache) =
    let op = operation_name command.operation in
    if member op placing_operations
    then some
        (record_placement command.container_id command.device_id command.placement_generation cache)
    else if member op unplacing_operations
    then some (forget command.container_id cache)
    else some cache

module _ {W : Type 0} where
  -- The placement cache changes only on success.
  unfoldable pub place_if_succeeded : ExecuteCommand → Reply → Agent W → Agent W
  unfolding update_placement
  place_if_succeeded command reply a = elim reply.error_code [
    | none ↦ record a { placement_cache = update_placement command a.placement_cache }
    | some code ↦ a
  ]

module _ {W : Type 0} (env : Env W) where
  -- The two writes before the handler runs.
  unfoldable pub start : (command_id : String) (command : ExecuteCommand) → Agent W → Agent W
  start command_id command a =
      let now = env.now a.world in
      on_journal
        (λ t. record_running now command_id (
          if has_seen command_id t
          then t
          else record_accepted now command_id (operation_name command.operation)
              command.placement_generation t))
        a

  unfoldable pub no_handler : ExecuteCommand → Outcome
  unfolding show
  no_handler command =
      failed_with "NO_HANDLER"
        ("No handler registered for operation " <> show (env.operation_number command.operation))

module _ {W : Type 0} (env : Env W) (report_result : Report W) where
  -- `_finish`: the journal first, then the report.
  unfoldable pub finish :
      (command_id : String) (placement_generation : ℕ) → Outcome → Action (Agent W) (Unit {0})
  finish command_id placement_generation o a =
      report_result command_id placement_generation o
        (on_journal (record_result (env.now a.world) command_id o) a)

  -- The body of the `try`.
  unfoldable pub attempt :
      (command_id : String) (command : ExecuteCommand) → Handler W → Action (Agent W) (Unit {0})
  attempt command_id command handler = do
    reply ← outside (handler command)
    λ a.
        finish command_id command.placement_generation (outcome_of reply)
          (place_if_succeeded command reply a)

  -- `except Exception as e`
  unfoldable pub recover :
      (command_id : String) (command : ExecuteCommand) → Exc → Action (Agent W) (Unit {0})
  recover command_id command stuck = raise stuck
  recover command_id command e =
      finish command_id command.placement_generation
        (failed_with "HANDLER_EXCEPTION" (take_chars 1000 (exc_text e)))

module _ {W : Type 0} (env : Env W) (report_result : Report W) (handlers : Handlers W) where
  unfoldable pub execute :
      (command_id : String) (command : ExecuteCommand) → Action (Agent W) (Unit {0})
  execute command_id command a = elim (handlers command.operation) [
    | none ↦
        finish env report_result command_id command.placement_generation (no_handler env command) a
    | some handler ↦
        handle (attempt env report_result command_id command handler) pure
          (recover env report_result command_id command) (start env command_id command a)
  ]
