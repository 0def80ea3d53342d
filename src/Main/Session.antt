-- ===== src/Main/Session.antt =====
-- How the agent's state may change over connections, commands and crashes. A connection opens a
-- queue and sends the Hello, the outbound generator goes on to the unreported results, messages
-- come in, and the process may die at any time, also between two writes of a command: the journal
-- is what is left.
use browseterm_device_agent.Prelude.{ℕ, String, ◌≡◌, false, some, List, [], ◌∷◌}
use browseterm_device_agent.Effects.{ok}
use browseterm_device_agent.State.Journal.{
  Journal, Outcome, has_terminal_result, record_accepted, record_running, record_result,
  mark_reported,
}
use browseterm_device_agent.Commands.Env.{ExecuteCommand, Env, Reply, Handler}
use browseterm_device_agent.Control.Connection.{
  CloudToDevice, constructed, open_stream, resend, send_heartbeat, handle_inbound,
}
use browseterm_device_agent.Commands.Executor.{outcome_of, failed_with}
use browseterm_device_agent.Main.{handlers, on_execute_command}
use browseterm_device_agent.Agent.{Agent, Message, send}

-- What the executor may record of a command: a reply of its handler, or a failure of its own.
pub data Recorded {W : Type 0} (env : Env W) (command : ExecuteCommand) : Outcome → Type 0 where
  replied :
      (handler : Handler W) (w : W) (reply : Reply)
      → handlers env command.operation ≡ some handler
      → (handler command w).0 ≡ ok reply
      → Recorded env command (outcome_of reply)
  failing : (code message : String) → Recorded env command (failed_with code message)

-- The writes that the execution of one command may have made when the process dies.
pub data Written {W : Type 0} (env : Env W) (command : ExecuteCommand) (t : Journal)
    : Journal → Type 0 where
  nothing : Written env command t t
  accepting :
      {u : Journal} (now generation : ℕ) (operation : String)
      → Written env command t u
      → Written env command t (record_accepted now command.command_id operation generation u)
  starting :
      {u : Journal} (now : ℕ)
      → Written env command t u
      → Written env command t (record_running now command.command_id u)
  finishing :
      {u : Journal} (now : ℕ) (o : Outcome)
      → Recorded env command o
      → Written env command t u
      → Written env command t (record_result now command.command_id o u)
  reporting :
      {u : Journal} (now : ℕ)
      → Written env command t u
      → Written env command t (mark_reported now command.command_id u)

-- A new process, on the journal that the old one left: `PlacementCache()`, and the manager.
abbrev pub restarted : {W : Type 0} → Journal → W → Agent W
restarted t w = constructed t (some []) w

module _ {W : Type 0} (env : Env W) where
  pub data Step (a : Agent W) (b : Agent W) : Type 0 where
    opened : b ≡ open_stream a → Step a b
    resent : b ≡ (resend a).1 → Step a b
    received :
        (m : CloudToDevice) → b ≡ (handle_inbound env (on_execute_command env) m a).1 → Step a b
    taken :
        (m : Message) (q : List Message)
        → a.outbound ≡ some (m ∷ q)
        → b ≡ record a { outbound = some q }
        → Step a b
    beaten : b ≡ send_heartbeat env a → Step a b
    queued : (m : Message) → b ≡ send m a → Step a b
    waited : (w : W) → b ≡ record a { world = w } → Step a b
    died : (w : W) → b ≡ restarted a.journal w → Step a b
    died_executing :
        (command : ExecuteCommand) (t : Journal) (w : W)
        → has_terminal_result command.command_id a.journal ≡ false
        → Written env command a.journal t
        → b ≡ restarted t w
        → Step a b

  pub data Reach (a : Agent W) : Agent W → Type 0 where
    here : Reach a a
    next : {b c : Agent W} → Reach a b → Step b c → Reach a c
