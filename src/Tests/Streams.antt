-- ===== src/Tests/Streams.antt =====
-- The theorems on connections and on the loop that makes them, at a concrete agent.
use browseterm_device_agent.Prelude.{arith, ◌≡◌, refl, false, none, some, List, [], ◌∷◌, ◌++◌}
use browseterm_device_agent.Effects.{other}
use browseterm_device_agent.State.Journal
use browseterm_device_agent.State.Journal.{
  JournalEntry, Outcome, succeeded, failed, get, unreported_terminal_entries, is_unreported,
}
use browseterm_device_agent.State.Journal.Unique.{
  Statement, accept, run, finish, acknowledge, execute_all,
}
use browseterm_device_agent.State.Journal.Refines.{IsAnsweredBy, apply_all, execute_all-refines}
use browseterm_device_agent.Commands.Env.{create}
use browseterm_device_agent.Control.Connection.{
  CloudToDevice, execute_command, hello_accepted, ping,
}
use browseterm_device_agent.Control.Connection.Messages.{message_of}
use browseterm_device_agent.Control.Connection
use browseterm_device_agent.Control.Connection.Stream
use browseterm_device_agent.Control.Connection.Stream.{
  Stream, Event, pulled, delivered, beat, queued, passed, greeted, sending, opened, connect_once,
}
use browseterm_device_agent.Control.Connection.Stream.Order.{InOrder, produced_all}
use browseterm_device_agent.Control.Connection.Stream.Delivers.{run-delivers}
use browseterm_device_agent.Control.Connection.Stream.Unsent.{acknowledged-unsent}
use browseterm_device_agent.State.Journal.Unique.{IsUnique}
use browseterm_device_agent.Control.Connection.Loop.{
  Round, no_channel, connecting, over, raised, rested, going, run_forever,
}
use browseterm_device_agent.Control.Connection.Loop.Delays.{expected_delays}
use browseterm_device_agent.Main.{on_execute_command}
use browseterm_device_agent.Main.Forever.{sent-InOrder, run_forever-going}
use browseterm_device_agent.Agent.{Message, heartbeat}
use browseterm_device_agent.Tests.World.{
  World, calm, env, env-Live, rows, rows-IsUnique, finished_entry, agent, command,
}

abbrev greeting : Message
greeting = heartbeat 1

-- A heartbeat before the resends, a command after them, and a ping that is not sent any more.
abbrev events : List (Event World)
events =
    pulled
    ∷ beat
    ∷ pulled
    ∷ delivered (execute_command (command create "c9"))
    ∷ pulled
    ∷ delivered (hello_accepted 1 false)
    ∷ passed calm
    ∷ pulled
    ∷ delivered (ping 7)
    ∷ []

abbrev end_of_events : Stream World
end_of_events = (connect_once env (on_execute_command env) greeting events agent).1

sent-InOrder_example :
    InOrder greeting end_of_events.stage end_of_events.sent end_of_events.agent.outbound
      (produced_all env (on_execute_command env) greeting events (opened agent))
sent-InOrder_example = sent-InOrder env greeting events agent

-- A connection that has sent the Hello.
abbrev waiting : Stream World
waiting = record { stage = greeted; sent = greeting ∷ []; agent = agent }

abbrev two_pulls : List (Event World)
two_pulls = beat ∷ pulled ∷ []

abbrev after_pulls : List Message
after_pulls = (Stream.run env (on_execute_command env) greeting (pulled ∷ two_pulls) waiting).1.sent

run-delivers_example :
    (before : List Message) × ((later : List Message) × (after_pulls
        ≡ waiting.sent ++ (before ++ message_of finished_entry ∷ later)))
unfolding Stream.run Stream.step Stream.pull Stream.pull_from Journal.get
    Journal.unreported_terminal_entries Connection.resend
run-delivers_example =
    run-delivers env (on_execute_command env) greeting two_pulls waiting "c1" finished_entry refl
      rows-IsUnique refl refl refl (omega arith)

-- A connection that fails to open, one that ends cleanly, and one whose call raises.
abbrev rounds : List (Round World)
rounds =
    (record { connection = no_channel; stopped = false; uniform = λ r. r; woken = rested })
    ∷ (record {
      connection = connecting events over;
      stopped = false;
      uniform = λ r. 0;
      woken = rested;
    })
    ∷ (record {
      connection = connecting (pulled ∷ []) (raised (other "gone"));
      stopped = false;
      uniform = λ r. r;
      woken = rested;
    })
    ∷ []

run_forever-going_example :
    ((run_forever env (on_execute_command env) greeting false rounds agent).exit ≡ going)
    × ((run_forever env (on_execute_command env) greeting false rounds agent).delays
        ≡ expected_delays env (on_execute_command env) greeting [] rounds agent)
run_forever-going_example =
    run_forever-going env env-Live greeting rounds agent
      ((refl, (refl, tt)), ((refl, (refl, λ e. cc)), ((refl, (refl, λ e. cc)), tt)))

abbrev statements : List Statement
statements =
    accept 30 "c3" "Save" 5
    ∷ run 31 "c3"
    ∷ finish 32 "c3"
        (record { status = failed; result = none; error_code = some "E"; error_message = none })
    ∷ acknowledge 33 "c1"
    ∷ []

execute_all-refines_example :
    IsAnsweredBy (execute_all rows statements) (apply_all (λ id. get id rows) statements)
execute_all-refines_example =
    execute_all-refines statements rows (λ id. get id rows) rows-IsUnique (λ id. refl)

-- Two results that are not reported.
abbrev second_entry : JournalEntry
second_entry = record finished_entry { command_id = "c8"; created_at = 11 }

abbrev with_two : Stream World
with_two = record waiting { agent = record agent { journal = finished_entry ∷ second_entry ∷ [] } }

two_rows-IsUnique : IsUnique (finished_entry ∷ second_entry ∷ [])
unfolding Journal.get
two_rows-IsUnique = (refl, (refl, tt))

acknowledged-unsent_example :
    let t =
      (Stream.run env
        (on_execute_command env)
        greeting
        (pulled ∷ delivered (hello_accepted 1 false) ∷ [])
        with_two).1 in
    (t.sent ≡ greeting ∷ message_of finished_entry ∷ [])
    × (t.stage ≡ sending (message_of second_entry ∷ []))
    × (unreported_terminal_entries t.agent.journal ≡ [])
unfolding Connection.build_unreported_results Journal.unreported_terminal_entries
acknowledged-unsent_example =
    acknowledged-unsent env (on_execute_command env) greeting with_two (message_of finished_entry)
      (message_of second_entry) [] refl refl 1 false two_rows-IsUnique
