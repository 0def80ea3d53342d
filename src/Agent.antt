-- ===== src/Agent.antt =====
-- The state of one process of the agent, as device_agent/main.py wires it together, and the
-- messages that it sends.
use browseterm_device_agent.Prelude.{ℕ, String, Option, none, some, List, ◌++◌, ◌∷◌, []}
use browseterm_device_agent.Json.{Payload}
use browseterm_device_agent.Effects.{Action}
use browseterm_device_agent.State.Journal.{Journal}
use browseterm_device_agent.State.Placement.{PlacementCache}

pub data WireStatus : Type 0 where
  wire_succeeded wire_failed : WireStatus

-- The wire's CommandResult.
pub record CommandResult : Type 0 where
  pub command_id : String
  pub status : WireStatus
  pub result_json : Payload
  pub error_code : String
  pub error_message : Payload
  pub placement_generation : ℕ

pub record Hello : Type 0 where
  pub device_id : String
  pub agent_version : String
  pub protocol_version : String
  pub platform : ℕ
  pub architecture : ℕ
  pub runtime_version : String
  pub startup_id : String

-- DeviceToCloud
pub data Message : Type 0 where
  hello : Hello → Message
  heartbeat : (sent_at_unix_ms : ℕ) → Message
  pong : (echoed_sent_at_unix_ms : ℕ) → Message
  command_accepted : (command_id : String) (accepted_at_unix_ms : ℕ) → Message
  command_progress : (command_id stage message : String) → Message
  command_result : CommandResult → Message
  local_event : (event_type : String) (payload_json : Payload) → Message
  terminal_tunnel_registration :
      (provider public_url : String) (generation : ℕ) (status : String) → Message

-- The journal is on disk; the cache, the queue and the pending ids are the process's own. `outbound`
-- is `none` until the first connection.
pub record Agent (W : Type 0) : Type 0 where
  pub journal : Journal
  pub placement_cache : Option PlacementCache
  pub outbound : Option (List Message)
  pub pending_resend_ids : List String
  pub world : W

-- `ConnectionManager._send`, on the queue
abbrev pub enqueue : Option (List Message) → Message → Option (List Message)
enqueue none m = none
enqueue (some q) m = some (q ++ m ∷ [])

module _ {W : Type 0} where
  -- A call to the outside world.
  abbrev pub outside : {A : Type 0} → Action W A → Action (Agent W) A
  outside m a = let (r, w) = m a.world in (r, record a { world = w })

  abbrev pub on_journal : (Journal → Journal) → Agent W → Agent W
  on_journal f a = record a { journal = f a.journal }

  unfoldable pub send : Message → Agent W → Agent W
  send m a = record a { outbound = enqueue a.outbound m }
