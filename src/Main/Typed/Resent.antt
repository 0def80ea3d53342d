-- ===== src/Main/Typed/Resent.antt =====
-- What the agent resends to the Cloud is typed, in every state that it can reach.
use browseterm_device_agent.Prelude.{String, ◌≡◌, true, Option, List, [], ◌∷◌, All, map}
use browseterm_device_agent.Json.{Json, Payload, plain, dumped}
use browseterm_device_agent.Effects.{ok}
use browseterm_device_agent.State.Journal.{
  JournalEntry, CommandStatus, is_terminal, unreported_terminal_entries,
}
use browseterm_device_agent.State.Journal.Members.{
  IsTerminal, unreported-All, unreported-IsTerminal,
}
use browseterm_device_agent.Commands.Env.{Operation, Env}
use browseterm_device_agent.Commands.Typing.{HasType, result_type}
use browseterm_device_agent.Commands.Typing.Rows.{
  IsTyped, unfinished, success, failure, RowIsTyped, AllTyped,
}
use browseterm_device_agent.Control.Connection.{
  json_or_empty, text_or_empty, build_unreported_results, resend,
}
use browseterm_device_agent.Control.Connection.Messages.{
  wire_of, message_of, build_unreported_results-messages,
}
use browseterm_device_agent.Main.Session.{Reach}
use browseterm_device_agent.Main.Typed.{Reach-AllTyped}
use browseterm_device_agent.Agent.{
  Agent, Message, WireStatus, wire_succeeded, wire_failed, command_result,
}

-- The result of a CommandResult: the JSON text of a value of an operation's type and no error code,
-- or an error code and no result.
pub data IsResult : WireStatus → Payload → String → Type 0 where
  with_result :
      {j : Json} (operation : Operation)
      → HasType j (result_type operation)
      → IsResult wire_succeeded (dumped j) ""
  with_error : {code : String} → IsResult wire_failed (plain "") code

abbrev pub IsTypedResult : Message → Type 0
IsTypedResult (command_result r) = IsResult r.status r.result_json r.error_code
IsTypedResult m = ⊥

typed-IsResult :
    {status : CommandStatus} {result : Option Json} {error_code : Option String}
    → IsTyped status result error_code
    → is_terminal status ≡ true
    → IsResult (wire_of status) (json_or_empty result) (text_or_empty error_code)
typed-IsResult (unfinished h) t = absurd (cc)
typed-IsResult (success operation h) t = with_result operation h
typed-IsResult failure t = with_error

messages-typed :
    (es : List JournalEntry)
    → All IsTerminal es
    → All RowIsTyped es
    → All IsTypedResult (map message_of es)
messages-typed [] t h = tt
messages-typed (e ∷ es) t h = (typed-IsResult h.0 t.0, messages-typed es t.1 h.1)

resend-messages :
    {W : Type 0} (a : Agent W)
    → (resend a).0 ≡ ok (map message_of (unreported_terminal_entries a.journal))
unfolding resend build_unreported_results
resend-messages a = build_unreported_results-messages a.journal

-- If every terminal row of the journal has a result of some operation's type and no error code, or
-- an error code and no result, then in every state that the agent can reach, over messages,
-- reconnects and crashes, resending gives messages without an exception, and each is a result
-- that succeeded with a value of some operation's type and no error code, or one that failed
-- with an error code and no value.
pub resend-IsTypedResult :
    {W : Type 0} (env : Env W) {a b : Agent W}
    → Reach env a b
    → AllTyped a.journal
    → (messages : List Message) × ((resend b).0 ≡ ok messages) × All IsTypedResult messages
resend-IsTypedResult env {b} r h = (
  map message_of (unreported_terminal_entries b.journal),
  resend-messages b,
  messages-typed _ (unreported-IsTerminal b.journal)
      (unreported-All RowIsTyped b.journal (Reach-AllTyped env r h)),
)
