-- ===== src/Control/Connection/Stream/Interleaving.antt =====
-- The order of what a connection of control/grpc_client.py sends, over all its events.
use mathlib.Core.List.{append_assoc, append-nil}
use browseterm_device_agent.Prelude.{
  String, ◌≡◌, refl, ◌∙◌, List, [], ◌∷◌, ◌++◌, arith, inl, inr, Bool-cases,
}
use browseterm_device_agent.Effects.{Action, ok, err, Exc, Result-cases}
use browseterm_device_agent.State.Journal.{has_terminal_result}
use browseterm_device_agent.Commands.Env.{ExecuteCommand, Env}
use browseterm_device_agent.Control.Connection.{
  CloudToDevice, hello_accepted, execute_command, ping, server_draining, not_handled, open_stream,
  send_heartbeat, accept_command, handle_inbound,
}
use browseterm_device_agent.Control.Connection.Inbound.{
  handle_inbound-duplicate, handle_inbound-new,
}
use browseterm_device_agent.Control.Connection.Stream.{
  Event, pulled, delivered, beat, queued, passed, Stream, pull, step, run, connect_once, opened,
}
use browseterm_device_agent.Control.Connection.Stream.Steps.{run-ok, run-err}
use browseterm_device_agent.Agent.{Agent, Message, heartbeat, pong, command_accepted, send}
use browseterm_device_agent.Control.Connection.Stream.Order.{
  InOrder, replies, produced, produced_all, enqueue_all, enqueue_all-nil, enqueue-eq-enqueue_all,
  InOrder-enqueue, pull_from-InOrder,
}

module _ {W : Type 0} (env : Env W)
    (on_execute_command : String → ExecuteCommand → Action (Agent W) (Unit {0}))
    (silent : (id : String) (command : ExecuteCommand) (a : Agent W)
      → (on_execute_command id command a).1.outbound ≡ a.outbound)
    (greeting : Message) where
  outbound-accept_command :
      (command : ExecuteCommand) (a : Agent W)
      → (accept_command env on_execute_command command a).1.outbound
        ≡ enqueue_all a.outbound (command_accepted command.command_id (env.unix_ms a.world) ∷ [])
  unfolding accept_command send
  outbound-accept_command command a =
      silent command.command_id command _ ∙ enqueue-eq-enqueue_all a.outbound _

  -- Handling a message puts its replies on the queue and nothing else.
  outbound-handle_inbound :
      (m : CloudToDevice) (a : Agent W)
      → (handle_inbound env on_execute_command m a).1.outbound
        ≡ enqueue_all a.outbound (replies env m a)
  outbound-handle_inbound (hello_accepted g r) a =
      unfold handle_inbound in enqueue_all-nil a.outbound
  outbound-handle_inbound (execute_command command) a =
      elim (Bool-cases (has_terminal_result command.command_id a.journal)) [
        | inl old ↦
            rw (handle_inbound-duplicate env on_execute_command command a old, old)
              (enqueue_all-nil a.outbound)
        | inr new ↦
            rw (handle_inbound-new env on_execute_command command a new, new)
              (outbound-accept_command command a)
      ]
  outbound-handle_inbound (ping n) a =
      unfold handle_inbound send in enqueue-eq-enqueue_all a.outbound (pong n)
  outbound-handle_inbound (server_draining n) a =
      unfold handle_inbound in enqueue_all-nil a.outbound
  outbound-handle_inbound not_handled a = unfold handle_inbound in enqueue_all-nil a.outbound

  abbrev IsOrdered : Stream W → List Message → Type 0
  IsOrdered s made = InOrder greeting s.stage s.sent s.agent.outbound made

  moved :
      (s : Stream W) (a : Agent W) (made ms : List Message)
      → a.outbound ≡ enqueue_all s.agent.outbound ms
      → IsOrdered s made
      → IsOrdered (record s { agent = a }) (made ++ ms)
  moved s a made ms e h = rw e (InOrder-enqueue greeting s.stage s.sent s.agent.outbound made ms h)

  step-InOrder :
      (e : Event W) (s : Stream W) (made : List Message)
      → IsOrdered s made
      → IsOrdered (step env on_execute_command greeting e s).1 (made ++ produced env e s.agent)
  step-InOrder pulled s made h =
      unfold step pull in rw append-nil (pull_from-InOrder greeting s.stage s made refl h)
  step-InOrder (delivered m) s made h =
      unfold step in
      moved s (handle_inbound env on_execute_command m s.agent).1 made (replies env m s.agent)
        (outbound-handle_inbound m s.agent) h
  step-InOrder beat s made h =
      unfold step send_heartbeat send in
      moved s (send_heartbeat env s.agent) made (heartbeat (env.unix_ms s.agent.world) ∷ [])
        (enqueue-eq-enqueue_all s.agent.outbound (heartbeat (env.unix_ms s.agent.world))) h
  step-InOrder (queued m) s made h =
      unfold step send in
      moved s (send m s.agent) made (m ∷ []) (enqueue-eq-enqueue_all s.agent.outbound m) h
  step-InOrder (passed w) s made h =
      unfold step in
      moved s (record s.agent { world = w }) made [] (enqueue_all-nil s.agent.outbound) h

  later-ok :
      (e : Event W) (es : List (Event W)) (s : Stream W)
      → (step env on_execute_command greeting e s).0 ≡ ok tt
      → produced_all env on_execute_command greeting (e ∷ es) s
        ≡ produced env e s.agent
          ++ produced_all env on_execute_command greeting es
              (step env on_execute_command greeting e s).1
  unfolding produced_all
  later-ok e es s h = ground arith

  later-err :
      (e : Event W) (es : List (Event W)) (s : Stream W) (x : Exc)
      → (step env on_execute_command greeting e s).0 ≡ err x
      → produced_all env on_execute_command greeting (e ∷ es) s ≡ produced env e s.agent
  unfolding produced_all
  later-err e es s x h = ground (arith, append-nil (produced env e s.agent))

  run-InOrder :
      (es : List (Event W)) (s : Stream W) (made : List Message)
      → IsOrdered s made
      → IsOrdered
          (run env on_execute_command greeting es s).1
          (made ++ produced_all env on_execute_command greeting es s)
  run-InOrder [] s made h = unfold run produced_all in rw append-nil h
  run-InOrder (e ∷ es) s made h =
      let t = step env on_execute_command greeting e s in
      elim (Result-cases t.0) [
        | inl (done, k) ↦
            rw (run-ok env on_execute_command greeting e es s k, later-ok e es s k, ← append_assoc)
              (run-InOrder es t.1 _ (step-InOrder e s made h))
        | inr (x, k) ↦
            rw (run-err env on_execute_command greeting e es s x k, later-err e es s x k)
              (step-InOrder e s made h)
      ]

  opened-InOrder : (a : Agent W) → IsOrdered (opened a) []
  unfolding open_stream
  opened-InOrder a = (refl, refl)

  -- At every point of a connection, however its pulls, the messages of the Cloud, the heartbeats
  -- and the sends of the local API interleave: if executing a command puts nothing on the queue
  -- itself, then what was sent is empty, or the Hello, or, with what is left to resend and the
  -- queue behind it, the Hello, the messages of the unreported rows of some journal, and then what
  -- the events have put on the queue, in their order.
  pub connect_once-InOrder :
      (es : List (Event W)) (a : Agent W)
      → let t = (connect_once env on_execute_command greeting es a).1 in
        InOrder greeting t.stage t.sent t.agent.outbound
          (produced_all env on_execute_command greeting es (opened a))
  connect_once-InOrder es a = unfold connect_once in run-InOrder es (opened a) [] (opened-InOrder a)
