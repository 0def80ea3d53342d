-- ===== src/Control/Connection/Stream/Delivers.antt =====
-- A connection of control/grpc_client.py that is pulled often enough sends every unreported result.
use mathlib.Core.List.{append_assoc, append-nil, map-append}
use browseterm_device_agent.Prelude.{
  ℕ, suc, ◌≤◌, String, ◌≡◌, refl, ◌∙◌, ap, sym, Option, none, some, List, [], ◌∷◌, ◌++◌, map,
  length, arith, inl, inr, true, Bool-cases, ◌==◌,
}
use browseterm_device_agent.Effects.{Action, ok}
use browseterm_device_agent.State.Journal.{
  Journal, JournalEntry, get, is_unreported, unreported_terminal_entries,
}
use browseterm_device_agent.State.Journal.Unique.{IsUnique}
use browseterm_device_agent.State.Journal.Outbox.{get-unreported-waiting}
use browseterm_device_agent.Commands.Env.{ExecuteCommand, Env}
use browseterm_device_agent.Control.Connection.{build_unreported_results, resend}
use browseterm_device_agent.Control.Connection.Messages.{
  message_of, build_unreported_results-messages,
}
use browseterm_device_agent.Control.Connection.Stream.{
  greeted, sending, Event, pulled, delivered, beat, queued, passed, Stream, yield_queued,
  yield_resends, pull_from, pull, step, run,
}
use browseterm_device_agent.Control.Connection.Stream.Steps.{run-steps, pull_from-ok}
use browseterm_device_agent.Agent.{Agent, Message}

abbrev pub pulls : {W : Type 0} → List (Event W) → ℕ
pulls [] = 0
pulls (pulled ∷ es) = suc (pulls es)
pulls (e ∷ es) = pulls es

-- `ms` were sent, from `before` on.
abbrev pub Extends : (before ms after : List Message) → Type 0
Extends before ms after = (more : List Message) × (after ≡ before ++ (ms ++ more))

Extends-refl : (sent : List Message) → Extends sent [] sent
Extends-refl sent = ([], sym (append-nil sent))

-- What is sent in a step, and then in later ones.
Extends-later : (a b c ms ns : List Message) → b ≡ a ++ ms → Extends b ns c → Extends a (ms ++ ns) c
Extends-later a b c ms ns e (y, f) = (y, f ∙ ap (λ l. l ++ (ns ++ y)) e ∙ simp append_assoc)

length-map : {A B : Type 0} (f : A → B) (xs : List A) → length (map f xs) ≡ length xs
length-map f [] = refl
length-map f (x ∷ xs) = ap suc (length-map f xs)

Extends-nil : (a c ms : List Message) → Extends a ms c → Extends a [] c
Extends-nil a c ms (y, f) = (ms ++ y, f)

get-split :
    (id : String) (t : Journal) (e : JournalEntry)
    → get id t ≡ some e
    → (l : List JournalEntry) × ((r : List JournalEntry) × (t ≡ l ++ e ∷ r))
unfolding get
get-split id [] e h = absurd (cc h)
get-split id (x ∷ t) e h = elim (Bool-cases (x.command_id == id)) [
  | inl y ↦ ([], (t, ap (λ k. k ∷ t) (cc (rw y at h))))
  | inr n ↦ let (l, (r, same)) = get-split id t e (rw n at h) in (x ∷ l, (r, ap (λ k. x ∷ k) same))
]

module _ {W : Type 0} (greeting : Message) where
  yield_queued-sent :
      (q : Option (List Message)) (a : Agent W) (s : Stream W)
      → a.outbound ≡ q
      → ((yield_queued a s).stage ≡ sending []) × Extends s.sent [] (yield_queued a s).sent
  yield_queued-sent none a s e = rw e (refl, Extends-refl s.sent)
  yield_queued-sent (some []) a s e = rw e (refl, Extends-refl s.sent)
  yield_queued-sent (some (m ∷ q)) a s e = rw e (refl, (m ∷ [], refl))

module _ {W : Type 0} (env : Env W)
    (on_execute_command : String → ExecuteCommand → Action (Agent W) (Unit {0}))
    (greeting : Message) where
  abbrev after : List (Event W) → Stream W → Stream W
  after es s = (run env on_execute_command greeting es s).1

  -- Where the first event has brought the stream.
  abbrev first : Event W → Stream W → Stream W
  first e s = (step env on_execute_command greeting e s).1

  goes_on :
      (e : Event W) (es : List (Event W)) (s : Stream W)
      → (run env on_execute_command greeting (e ∷ es) s).0 ≡ ok tt
      → (run env on_execute_command greeting es (first e s)).0 ≡ ok tt
  goes_on e es s done =
      let (h, same) = run-steps env on_execute_command greeting e es s done in rw same at done

  Extends-first :
      (e : Event W) (es : List (Event W)) (s : Stream W) (ms rest : List Message)
      → (run env on_execute_command greeting (e ∷ es) s).0 ≡ ok tt
      → (first e s).sent ≡ s.sent ++ ms
      → Extends (first e s).sent rest (after es (first e s)).sent
      → Extends s.sent (ms ++ rest) (after (e ∷ es) s).sent
  Extends-first e es s ms rest done sent more =
      let (h, same) = run-steps env on_execute_command greeting e es s done in
      rw (same, after) (Extends-later s.sent (first e s).sent _ ms rest sent more)

  pull-sending :
      (s : Stream W) (rest : List Message)
      → s.stage ≡ sending rest
      → first pulled s ≡ yield_resends rest s.agent s
  unfolding step pull pull_from
  pull-sending s rest e = rw e refl

  first-resend :
      (s : Stream W) (ms : List Message)
      → s.stage ≡ greeted
      → (resend s.agent).0 ≡ ok ms
      → first pulled s ≡ yield_resends ms (resend s.agent).1 s
  unfolding step pull
  first-resend s ms e built =
      ap (λ r. r.1) (ap (λ stage. pull_from greeting stage s) e ∙ pull_from-ok greeting s ms built)

  -- Enough pulls yield the resends that are left.
  resends-sent :
      (es : List (Event W)) (s : Stream W) (rest : List Message)
      → s.stage ≡ sending rest
      → (run env on_execute_command greeting es s).0 ≡ ok tt
      → length rest ≤ pulls es
      → Extends s.sent rest (after es s).sent
  resends-sent [] s [] at_stage done enough = unfold run in Extends-refl s.sent
  resends-sent [] s (m ∷ ms) at_stage done enough = absurd (omega arith)
  resends-sent (pulled ∷ es) s [] at_stage done enough =
      let p = pull-sending s [] at_stage in
      let (next, (more, grown)) = yield_queued-sent greeting s.agent.outbound s.agent s refl in
      Extends-nil s.sent _ (more ++ []) (
        Extends-first pulled es s more [] done (rw p grown) (
          resends-sent es (first pulled s) [] (rw p next) (goes_on pulled es s done) (omega arith)))
  resends-sent (pulled ∷ es) s (m ∷ ms) at_stage done enough =
      let p = pull-sending s (m ∷ ms) at_stage in
      Extends-first pulled es s (m ∷ []) ms done (rw p refl)
        (resends-sent es (first pulled s) ms (rw p refl) (goes_on pulled es s done) (omega arith))
  resends-sent (delivered m ∷ es) s rest at_stage done enough =
      Extends-first (delivered m) es s [] rest done (unfold step in sym (append-nil s.sent)) (
        resends-sent es (first (delivered m) s) rest (unfold step in at_stage)
          (goes_on (delivered m) es s done) enough)
  resends-sent (beat ∷ es) s rest at_stage done enough =
      Extends-first beat es s [] rest done (unfold step in sym (append-nil s.sent)) (
        resends-sent es (first beat s) rest (unfold step in at_stage) (goes_on beat es s done)
          enough)
  resends-sent (queued m ∷ es) s rest at_stage done enough =
      Extends-first (queued m) es s [] rest done (unfold step in sym (append-nil s.sent)) (
        resends-sent es (first (queued m) s) rest (unfold step in at_stage)
          (goes_on (queued m) es s done) enough)
  resends-sent (passed w ∷ es) s rest at_stage done enough =
      Extends-first (passed w) es s [] rest done (unfold step in sym (append-nil s.sent)) (
        resends-sent es (first (passed w) s) rest (unfold step in at_stage)
          (goes_on (passed w) es s done) enough)

  -- A resend after the Hello yields the whole list, one message at each pull.
  resend-sent :
      (es : List (Event W)) (s : Stream W) (ms : List Message)
      → s.stage ≡ greeted
      → (resend s.agent).0 ≡ ok ms
      → (run env on_execute_command greeting (pulled ∷ es) s).0 ≡ ok tt
      → length ms ≤ suc (pulls es)
      → Extends s.sent ms (after (pulled ∷ es) s).sent
  resend-sent es s [] at_stage built done enough =
      let p = first-resend s [] at_stage built in
      let (next, (more, grown)) =
        yield_queued-sent greeting (resend s.agent).1.outbound (resend s.agent).1 s refl in
      Extends-nil s.sent _ (more ++ []) (
        Extends-first pulled es s more [] done (rw p grown) (
          resends-sent es (first pulled s) [] (rw p next) (goes_on pulled es s done) (omega arith)))
  resend-sent es s (m ∷ ms) at_stage built done enough =
      let p = first-resend s (m ∷ ms) at_stage built in
      Extends-first pulled es s (m ∷ []) ms done (rw p refl)
        (resends-sent es (first pulled s) ms (rw p refl) (goes_on pulled es s done) (omega arith))

  -- If the generator of a connection has yielded the Hello, the table has one row at most for each
  -- command, the next pull and the events after it run without an exception, and the pulls are as
  -- many as the unreported rows, then the message of every row that was terminal and unreported is
  -- among what the connection has sent by then, after what it had sent before.
  pub run-delivers :
      (es : List (Event W)) (s : Stream W) (id : String) (e : JournalEntry)
      → s.stage ≡ greeted
      → IsUnique s.agent.journal
      → get id s.agent.journal ≡ some e
      → is_unreported e ≡ true
      → (run env on_execute_command greeting (pulled ∷ es) s).0 ≡ ok tt
      → length (unreported_terminal_entries s.agent.journal) ≤ suc (pulls es)
      → (before : List Message) × ((later : List Message) × ((run env on_execute_command greeting
              (pulled ∷ es)
              s).1.sent
            ≡ s.sent ++ (before ++ message_of e ∷ later)))
  unfolding resend build_unreported_results
  run-delivers es s id e at_stage u h waits done enough =
      let rows = unreported_terminal_entries s.agent.journal in
      let (l, (r, split)) =
        get-split id rows e (get-unreported-waiting id s.agent.journal u h waits) in
      let (more, sent) =
        resend-sent es s (map message_of rows) at_stage
          (build_unreported_results-messages s.agent.journal) done (rw length-map enough) in
      (
        map message_of l,
        (map message_of r ++ more, sent ∙ rw split (rw map-append (simp append_assoc))),
      )
