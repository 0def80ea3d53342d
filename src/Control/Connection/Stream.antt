-- ===== src/Control/Connection/Stream.antt =====
-- `_connect_once` of control/grpc_client.py. The gRPC call is not in the repository: it pulls the
-- outbound generator and delivers messages in an order of its own, which is the list of events.
pub mod Steps
pub mod Order
pub mod Interleaving
pub mod Delivers
pub mod Unsent
use browseterm_device_agent.Prelude.{Option, none, some, List, [], ◌∷◌, ◌++◌, String}
use browseterm_device_agent.Effects.{Action, Result, ok, err, Exc}
use browseterm_device_agent.Commands.Env.{ExecuteCommand, Env}
use browseterm_device_agent.Control.Connection.{
  CloudToDevice, open_stream, resend, send_heartbeat, handle_inbound,
}
use browseterm_device_agent.Agent.{Agent, Message, send}

-- Where the outbound generator stands: before the Hello, before the resends, or with these resends
-- left, after which it hands on the queue.
pub data Stage : Type 0 where
  fresh greeted : Stage
  sending : List Message → Stage

-- What may happen while the stream is open. `queued` is a message that the local API sends, and
-- `passed` is time.
pub data Event (W : Type 0) : Type 0 where
  pulled : Event W
  delivered : CloudToDevice → Event W
  beat : Event W
  queued : Message → Event W
  passed : W → Event W

-- `sent` is what the generator has yielded, oldest first.
pub record Stream (W : Type 0) : Type 0 where
  pub stage : Stage
  pub sent : List Message
  pub agent : Agent W

abbrev pub yield_message : {W : Type 0} → Stage → Agent W → Message → Stream W → Stream W
yield_message stage agent m s = record { stage = stage; sent = s.sent ++ m ∷ []; agent = agent }

-- `await self._outbound.get()`; an empty queue is waited for.
abbrev pub yield_queued : {W : Type 0} → Agent W → Stream W → Stream W
yield_queued a s = elim a.outbound [
  | some (m ∷ q) ↦ yield_message (sending []) (record a { outbound = some q }) m s
  | other ↦ record s { stage = sending []; agent = a }
]

-- The list of the messages to resend is built whole before the first is yielded.
abbrev pub yield_resends : {W : Type 0} → List Message → Agent W → Stream W → Stream W
yield_resends [] a s = yield_queued a s
yield_resends (m ∷ ms) a s = yield_message (sending ms) a m s

-- One step of `outbound_gen`.
unfoldable pub pull_from :
    {W : Type 0} → (greeting : Message) → Stage → Stream W → Result (Unit {0}) × Stream W
pull_from greeting fresh s = (ok tt, yield_message greeted s.agent greeting s)
pull_from greeting greeted s =
    let (r, a) = resend s.agent in
    elim r [ ok ms ↦ (ok tt, yield_resends ms a s) | err e ↦ (err e, record s { agent = a }) ]
pull_from greeting (sending ms) s = (ok tt, yield_resends ms s.agent s)

unfoldable pub pull : {W : Type 0} → (greeting : Message) → Stream W → Result (Unit {0}) × Stream W
unfolding pull_from
pull greeting s = pull_from greeting s.stage s

-- A new connection, which nothing has been pulled from.
abbrev pub opened : {W : Type 0} → Agent W → Stream W
opened a = record { stage = fresh; sent = []; agent = open_stream a }

module _ {W : Type 0} (env : Env W)
    (on_execute_command : String → ExecuteCommand → Action (Agent W) (Unit {0}))
    (greeting : Message) where
  unfoldable pub step : Event W → Stream W → Result (Unit {0}) × Stream W
  unfolding pull
  step pulled s = pull greeting s
  step (delivered m) s =
      let (r, a) = handle_inbound env on_execute_command m s.agent in (r, record s { agent = a })
  step beat s = (ok tt, record s { agent = send_heartbeat env s.agent })
  step (queued m) s = (ok tt, record s { agent = send m s.agent })
  step (passed w) s = (ok tt, record s { agent = record s.agent { world = w } })

  -- The events up to the end of the stream, or to the exception that ends it.
  unfoldable pub run : List (Event W) → Stream W → Result (Unit {0}) × Stream W
  unfolding step
  run [] s = (ok tt, s)
  run (e ∷ es) s =
      let (r, t) = step e s in let rest = run es t in elim r [ ok done ↦ rest | err x ↦ (err x, t) ]

  unfoldable pub connect_once : List (Event W) → Agent W → Result (Unit {0}) × Stream W
  unfolding run
  connect_once es a = run es (opened a)
