-- ===== src/Control/Connection/Stream/Order.antt =====
-- The order of what a connection of control/grpc_client.py sends: the Hello, the unreported results,
-- then the queue.
use mathlib.Core.List.{append_assoc, append-nil}
use browseterm_device_agent.Prelude.{
  String, ◌≡◌, refl, ◌∙◌, ap, sym, Option, none, some, List, [], ◌∷◌, ◌++◌, inl, inr, if◌then◌else◌,
}
use browseterm_device_agent.Effects.{Action, ok, err, Result-cases}
use browseterm_device_agent.State.Journal.{Journal, has_terminal_result}
use browseterm_device_agent.Commands.Env.{ExecuteCommand, Env}
use browseterm_device_agent.Control.Connection.{
  CloudToDevice, hello_accepted, execute_command, ping, server_draining, not_handled,
  build_unreported_results, resend,
}
use browseterm_device_agent.Control.Connection.Stream.{
  Stage, fresh, greeted, sending, Event, pulled, delivered, beat, queued, passed, Stream,
  yield_queued, yield_resends, pull_from, step,
}
use browseterm_device_agent.Control.Connection.Stream.Steps.{pull_from-ok, pull_from-err}
use browseterm_device_agent.Agent.{enqueue, Agent, Message, heartbeat, pong, command_accepted}

-- What the agent answers to a message of the Cloud over the stream.
abbrev pub replies : {W : Type 0} → Env W → CloudToDevice → Agent W → List Message
replies env (execute_command command) a =
    if has_terminal_result command.command_id a.journal
    then []
    else command_accepted command.command_id (env.unix_ms a.world) ∷ []
replies env (ping sent_at_unix_ms) a = pong sent_at_unix_ms ∷ []
replies env (hello_accepted g r) a = []
replies env (server_draining n) a = []
replies env not_handled a = []

-- The messages that an event puts on the queue.
abbrev pub produced : {W : Type 0} → Env W → Event W → Agent W → List Message
produced env pulled a = []
produced env (delivered m) a = replies env m a
produced env beat a = heartbeat (env.unix_ms a.world) ∷ []
produced env (queued m) a = m ∷ []
produced env (passed w) a = []

abbrev pub enqueue_all : Option (List Message) → List Message → Option (List Message)
enqueue_all none ms = none
enqueue_all (some q) ms = some (q ++ ms)

-- With `rest` of the resends left: the results that were unreported in some journal of the
-- connection come right after the Hello, and then what was put on the queue.
pub record InFlight (greeting : Message) (rest sent : List Message)
    (outbound : Option (List Message)) (made : List Message) : Type 0 where
  pub journal : Journal
  pub batch : List Message
  pub queue : List Message
  pub built : build_unreported_results journal ≡ ok batch
  pub left : outbound ≡ some queue
  pub order : sent ++ (rest ++ queue) ≡ greeting ∷ (batch ++ made)

abbrev pub InOrder :
    (greeting : Message)
    → Stage
    → (sent : List Message) → (outbound : Option (List Message)) → (made : List Message) → Type 0
InOrder greeting fresh sent outbound made = (sent ≡ []) × (outbound ≡ some made)
InOrder greeting greeted sent outbound made = (sent ≡ greeting ∷ []) × (outbound ≡ some made)
InOrder greeting (sending rest) sent outbound made = InFlight greeting rest sent outbound made

regroup :
    (sent rest queue ms : List Message)
    → sent ++ (rest ++ (queue ++ ms)) ≡ (sent ++ (rest ++ queue)) ++ ms
regroup sent rest queue ms = simp append_assoc

pub InOrder-enqueue :
    (greeting : Message) (stage : Stage) (sent : List Message) (outbound : Option (List Message))
    (made ms : List Message)
    → InOrder greeting stage sent outbound made
    → InOrder greeting stage sent (enqueue_all outbound ms) (made ++ ms)
InOrder-enqueue greeting fresh sent outbound made ms (s, o) = (s, rw o refl)
InOrder-enqueue greeting greeted sent outbound made ms (s, o) = (s, rw o refl)
InOrder-enqueue greeting (sending rest) sent outbound made ms f = record {
  journal = f.journal;
  batch = f.batch;
  queue = f.queue ++ ms;
  built = f.built;
  left = rw f.left refl;
  order = regroup sent rest f.queue ms ∙ ap (λ l. l ++ ms) f.order ∙ simp append_assoc;
}

pub enqueue_all-nil : (o : Option (List Message)) → o ≡ enqueue_all o []
enqueue_all-nil none = refl
enqueue_all-nil (some q) = ap some (sym (append-nil q))

pub enqueue-eq-enqueue_all :
    (o : Option (List Message)) (m : Message) → enqueue o m ≡ enqueue_all o (m ∷ [])
enqueue-eq-enqueue_all none m = refl
enqueue-eq-enqueue_all (some q) m = refl

-- Yielding one message moves it from what is left to what is sent.
shift :
    (sent : List Message) (m : Message) (rest : List Message)
    → (sent ++ m ∷ []) ++ rest ≡ sent ++ m ∷ rest
shift sent m rest = simp append_assoc

module _ {W : Type 0} (greeting : Message) where
  yield_queued-InFlight :
      (q : Option (List Message)) (a : Agent W) (s : Stream W) (made : List Message)
      → a.outbound ≡ q
      → InFlight greeting [] s.sent a.outbound made
      → let t = yield_queued a s in InOrder greeting t.stage t.sent t.agent.outbound made
  yield_queued-InFlight none a s made e f = cc f.left
  yield_queued-InFlight (some []) a s made e f =
      let same : f.queue ≡ [] = cc in
      rw e (record {
        journal = f.journal;
        batch = f.batch;
        queue = [];
        built = f.built;
        left = refl;
        order = ap (λ q. s.sent ++ q) (sym same) ∙ f.order;
      })
  yield_queued-InFlight (some (m ∷ q)) a s made e f =
      let same : f.queue ≡ m ∷ q = cc in
      rw e (record {
        journal = f.journal;
        batch = f.batch;
        queue = q;
        built = f.built;
        left = refl;
        order = shift s.sent m q ∙ ap (λ r. s.sent ++ r) (sym same) ∙ f.order;
      })

  yield_resends-InFlight :
      (rest : List Message) (a : Agent W) (s : Stream W) (made : List Message)
      → InFlight greeting rest s.sent a.outbound made
      → let t = yield_resends rest a s in InOrder greeting t.stage t.sent t.agent.outbound made
  yield_resends-InFlight [] a s made f = yield_queued-InFlight a.outbound a s made refl f
  yield_resends-InFlight (m ∷ ms) a s made f = record {
    journal = f.journal;
    batch = f.batch;
    queue = f.queue;
    built = f.built;
    left = f.left;
    order = shift s.sent m (ms ++ f.queue) ∙ f.order;
  }

  -- The resends are taken up: nothing of the queue has been sent yet.
  taken_up :
      (s : Stream W) (made batch : List Message)
      → InOrder greeting greeted s.sent s.agent.outbound made
      → (resend s.agent).0 ≡ ok batch
      → InFlight greeting batch s.sent (resend s.agent).1.outbound made
  unfolding resend build_unreported_results
  taken_up s made batch (e, o) built = record {
    journal = s.agent.journal;
    batch = batch;
    queue = made;
    built = built;
    left = o;
    order = rw e refl;
  }

  not_taken_up :
      (s : Stream W) (made : List Message)
      → InOrder greeting greeted s.sent s.agent.outbound made
      → InOrder greeting greeted s.sent (resend s.agent).1.outbound made
  unfolding resend
  not_taken_up s made h = h

  pub pull_from-InOrder :
      (stage : Stage) (s : Stream W) (made : List Message)
      → s.stage ≡ stage
      → InOrder greeting stage s.sent s.agent.outbound made
      → let t = (pull_from greeting stage s).1 in
        InOrder greeting t.stage t.sent t.agent.outbound made
  pull_from-InOrder fresh s made at_stage (e, o) = unfold pull_from in (rw e refl, o)
  pull_from-InOrder greeted s made at_stage h = elim (Result-cases (resend s.agent).0) [
    | inl (ms, e) ↦
        rw (pull_from-ok greeting s ms e)
          (yield_resends-InFlight ms (resend s.agent).1 s made (taken_up s made ms h e))
    | inr (x, e) ↦ rw (pull_from-err greeting s x e, at_stage) (not_taken_up s made h)
  ]
  pull_from-InOrder (sending ms) s made at_stage f =
      unfold pull_from in yield_resends-InFlight ms s.agent s made f

module _ {W : Type 0} (env : Env W)
    (on_execute_command : String → ExecuteCommand → Action (Agent W) (Unit {0}))
    (greeting : Message) where
  -- What the events put on the queue, up to the end of the connection.
  unfoldable pub produced_all : List (Event W) → Stream W → List Message
  produced_all [] s = []
  produced_all (e ∷ es) s =
      let (r, t) = step env on_execute_command greeting e s in
      let later = produced_all es t in
      produced env e s.agent ++ (elim r [ ok done ↦ later | err x ↦ [] ])
