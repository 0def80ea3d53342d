-- ===== src/Tests/Sessions.antt =====
-- The theorems on a session of the agent, with a reconnect and a crash, at a concrete session.
use browseterm_device_agent.Prelude.{◌≡◌, refl, true, false}
use browseterm_device_agent.Effects.{ok}
use browseterm_device_agent.State.Journal
use browseterm_device_agent.State.Journal.{Journal, has_terminal_result}
use browseterm_device_agent.State.Journal.Unique.{IsUnique}
use browseterm_device_agent.State.Journal.Progress.{Keeps, Keeps-refl}
use browseterm_device_agent.Commands.Env.{create, hibernate, save, ExecuteCommand}
use browseterm_device_agent.Control.Connection.{
  execute_command, hello_accepted, handle_inbound, open_stream, resend,
}
use browseterm_device_agent.Main.{on_execute_command}
use browseterm_device_agent.Main.Session.{
  Reach, here, next, opened, resent, received, died, restarted,
}
use browseterm_device_agent.Main.Once.{Finished, Reach-Keeps}
use browseterm_device_agent.Main.Delivery.{Reach-IsUnique}
use browseterm_device_agent.Main.Ends.{delivered_command-terminal, delivered_once}
use browseterm_device_agent.Agent.{Agent}
use browseterm_device_agent.Tests.World.{
  World, calm, env, env-Live, rows, rows-IsUnique, finished_entry, agent, command,
}

-- Another command, whose execution dies after the first write.
abbrev other_command : ExecuteCommand
other_command = command save "c7"

abbrev delivered : ExecuteCommand → Agent World → Agent World
delivered c a = (handle_inbound env (on_execute_command env) (execute_command c) a).1

-- A crash, a connection with a resend that is acknowledged, and another command.
abbrev reconnected : Agent World → Agent World
reconnected a = (resend (open_stream (restarted a.journal calm))).1

abbrev resumed : Agent World → Agent World
resumed a = (handle_inbound env (on_execute_command env) (hello_accepted 1 false) (reconnected a)).1

abbrev pub later : Agent World → Agent World
later a = delivered other_command (resumed a)

pub session : (a : Agent World) → Reach env a (later a)
session a =
    let down : Reach env a (restarted a.journal calm) = next here (died calm refl) in
    let up : Reach env a (reconnected a) = next (next down (opened refl)) (resent refl) in
    next (next up (received (hello_accepted 1 false) refl))
      (received (execute_command other_command) refl)

delivered_command-terminal_example :
    has_terminal_result "c2" (delivered (command hibernate "c2") agent).journal ≡ true
delivered_command-terminal_example =
    delivered_command-terminal env env-Live (command hibernate "c2") agent

delivered_once_example :
    handle_inbound env
      (on_execute_command env)
      (execute_command (command create "c2"))
      (later (delivered (command hibernate "c2") agent))
    ≡ (ok tt, later (delivered (command hibernate "c2") agent))
delivered_once_example =
    delivered_once env env-Live (command hibernate "c2") (command create "c2") agent rows-IsUnique
      (session (delivered (command hibernate "c2") agent)) refl

finished : Finished finished_entry rows
unfolding Journal.get
finished = record { terminal = refl; keeps = Keeps-refl finished_entry rows refl }

Reach-Keeps_example : Keeps finished_entry (later agent).journal
Reach-Keeps_example = Reach-Keeps env finished_entry (session agent) finished

Reach-IsUnique_example : IsUnique (later agent).journal
Reach-IsUnique_example = Reach-IsUnique env (session agent) rows-IsUnique
