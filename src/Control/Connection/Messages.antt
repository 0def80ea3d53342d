-- ===== src/Control/Connection/Messages.antt =====
-- `_messages_for_entries` of control/grpc_client.py, on the rows that are resent.
use browseterm_device_agent.Prelude.{◌≡◌, refl, none, some, List, [], ◌∷◌, All, arith, map}
use browseterm_device_agent.Effects.{ok}
use browseterm_device_agent.Json.{plain, dumped}
use browseterm_device_agent.State.Journal.{
  Journal, JournalEntry, CommandStatus, succeeded, unreported_terminal_entries,
}
use browseterm_device_agent.State.Journal.Members.{IsTerminal, unreported-IsTerminal}
use browseterm_device_agent.Control.Connection.{
  messages_for_entries, build_unreported_results, status_to_wire,
}
use browseterm_device_agent.Agent.{Message, WireStatus, command_result, wire_succeeded, wire_failed}

-- A row that is not terminal has no status on the wire; it is never resent.
abbrev pub wire_of : CommandStatus → WireStatus
wire_of succeeded = wire_succeeded
wire_of _ = wire_failed

-- The message of a finished command: what its row says, with the row's own generation. What the
-- row does not have is the empty text.
abbrev pub message_of : JournalEntry → Message
message_of e = command_result (record {
  command_id = e.command_id;
  status = wire_of e.status;
  result_json = elim e.result_json [ none ↦ plain "" | some value ↦ dumped value ];
  error_code = elim e.error_code [ none ↦ "" | some code ↦ code ];
  error_message = elim e.error_message [ none ↦ plain "" | some message ↦ message ];
  placement_generation = e.placement_generation;
})

messages-terminal :
    (es : List JournalEntry) → All IsTerminal es → messages_for_entries es ≡ ok (map message_of es)
unfolding messages_for_entries status_to_wire
messages-terminal [] a = refl
messages-terminal (e ∷ es) a = ground (arith, messages-terminal es a.1)

-- Building the messages to resend never fails on a row's status, and gives one message for each
-- row of the list, in its order, with the row's status, result, errors and generation.
pub build_unreported_results-messages :
    (t : Journal) → build_unreported_results t ≡ ok (map message_of (unreported_terminal_entries t))
unfolding build_unreported_results
build_unreported_results-messages t = messages-terminal _ (unreported-IsTerminal t)
