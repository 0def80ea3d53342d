-- ===== src/Main/Forever.antt =====
-- `connection_manager.run_forever()` as device_agent/main.py starts it, with the handlers that it
-- registers.
use browseterm_device_agent.Prelude.{String, ◌≡◌, false, List, [], All}
use browseterm_device_agent.Commands.Env.{Env, ExecuteCommand}
use browseterm_device_agent.Commands.Ends.{Live}
use browseterm_device_agent.Commands.Executor.Queue.{outbound-execute}
use browseterm_device_agent.Control.Connection.Loop.{Round, going, run_forever}
use browseterm_device_agent.Control.Connection.Loop.Delays.{
  IsUndisturbed, expected_delays, run_forever-delays,
}
use browseterm_device_agent.Control.Connection.Stream.{Event, opened, connect_once}
use browseterm_device_agent.Control.Connection.Stream.Order.{InOrder, produced_all}
use browseterm_device_agent.Control.Connection.Stream.Interleaving.{connect_once-InOrder}
use browseterm_device_agent.Main.{report_result, handlers, on_execute_command}
use browseterm_device_agent.Main.Report.{report_result-IsSilent}
use browseterm_device_agent.Main.Ends.{execute-HasEnd}
use browseterm_device_agent.Agent.{Agent, Message}

outbound-on_execute_command :
    {W : Type 0} (env : Env W) (id : String) (command : ExecuteCommand) (a : Agent W)
    → (on_execute_command env id command a).1.outbound ≡ a.outbound
unfolding on_execute_command
outbound-on_execute_command env id command a =
    outbound-execute env (report_result env) (handlers env) (report_result-IsSilent env) id command
      a

-- At every point of a connection, however its pulls, the messages of the Cloud, the heartbeats and
-- the sends of the local API interleave: what was sent is empty, or the Hello, or, with what is
-- left to resend and the queue behind it, the Hello, the messages of the unreported rows of some
-- journal, and then what the events have put on the queue, in their order.
pub sent-InOrder :
    {W : Type 0} (env : Env W) (greeting : Message) (es : List (Event W)) (a : Agent W)
    → let t = (connect_once env (on_execute_command env) greeting es a).1 in
      InOrder greeting t.stage t.sent t.agent.outbound
        (produced_all env (on_execute_command env) greeting es (opened a))
sent-InOrder env greeting es a =
    connect_once-InOrder env (on_execute_command env) (outbound-on_execute_command env) greeting es
      a

-- In a live world, and over rounds in which nobody calls stop or cancels the task: the loop is not
-- left, whatever exceptions the connections end with, and it sleeps once after each of them, for
-- the backoff of the number of connections since the last clean end, which has that of 0 itself.
pub run_forever-going :
    {W : Type 0} (env : Env W) (live : Live env) (greeting : Message) (rs : List (Round W))
    (a : Agent W)
    → All IsUndisturbed rs
    → let l = run_forever env (on_execute_command env) greeting false rs a in
      (l.exit ≡ going) × (l.delays ≡ expected_delays env (on_execute_command env) greeting [] rs a)
run_forever-going env live greeting rs a =
    run_forever-delays env (on_execute_command env) (execute-HasEnd env live) greeting rs a
