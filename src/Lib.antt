-- ===== src/Lib.antt =====
-- The device agent of browseterm: a process on a user's device that takes commands from the Cloud
-- over a stream, carries them out with Container Maker, writes every step to a journal on disk, and
-- reports each result to the Cloud.
--
-- The parts, with the files of the repository that they model:
--   State.Journal      device_agent/state/command_journal.py. The table is the list of its rows, and
--                      each method is its SQL statement: has_seen, has_terminal_result, get,
--                      record_accepted, record_running, record_result, mark_reported and
--                      unreported_terminal_entries.
--                      Journal.Schema is the file as a process finds it: `_init_schema`, with the
--                      column that earlier versions lack.
--   State.Placement    device_agent/state/placement_cache.py: record is `record_placement`.
--   Clients.Retry      device_agent/clients/retry.py: call_with_retry.
--   Clients.Maker      device_agent/clients/container_maker_client.py: the three calls.
--   Clients.Cloud      device_agent/clients/cloud_client.py, the calls in Calls and Resources.
--   Clients.K8sSecrets device_agent/clients/k8s_secrets.py: the reader with its cache, and Base64 for
--                      the standard library's b64decode.
--   Commands           device_agent/commands: a handler for each operation (Create, Resume, Delete,
--                      Save, Hibernate), Name for _util.py, Config for what the handlers do alike,
--                      Save also for save_execution.py, and Executor for executor.py. Typing and
--                      Placing are not code: they say what the replies of each operation look
--                      like, and what a create and a resume ask of Container Maker; nor is
--                      Executor.Holds, which says what an execution leaves behind.
--   Control.Connection device_agent/control/grpc_client.py: the messages that are built and sent,
--                      and `handle_inbound` for _handle_inbound. `open_stream` and `resend` are the
--                      two stages of the outbound generator of _connect_once. Connection.Stream is
--                      _connect_once over a list of events: a pull of the generator, a message of
--                      the Cloud, a heartbeat, a send of the local API, or time. Connection.Loop is
--                      run_forever over a list of rounds: how a connection goes, whether stop was
--                      called, what the random generator draws, and how the sleep ends.
--   Control.Backoff    device_agent/control/backoff.py, with the schedule of config.py.
--   LocalApi           device_agent/local_api/service.py: a function for each call of the servicer;
--                      LocalApi.Relayed has the seven that abort where the Cloud fails.
--   Config             device_agent/config.py: `load` reads the settings from an environment. Numbers
--                      is Python's int() and float() of a text.
--   Channel            the gRPC channels by what gRPC is given: Connection.Dial has the one to the
--                      Cloud, Clients.Maker.Channel the one to Container Maker.
--   Main               the report_result, the handlers and the on_execute_command of
--                      device_agent/main.py; Main.Session has the states that a process and its
--                      successors on the same disk can reach. Main.Startup reads the files of the
--                      device and the certificates, Main.Run is `run` as a whole, and Main.Process
--                      the program, with what its imports do; Process.Lives has the programs that a
--                      supervisor starts one after the other.
--   Observability      device_agent/observability/logging_setup.py: what a log line holds, the root
--                      logger's handlers, and the request context.
--   Agent              the state that these parts share: the journal, the placement cache, the
--                      outbound queue, the ids that wait for an acknowledgement, and the world.
-- Prelude, Text, Json and Effects hold what the parts share: Python's `split`, `join` and `isdigit`
-- on texts, JSON values with `get`, `[...]` and truth, and calls that change a state and may raise.
--
-- How they interact: a message of the Cloud goes to `handle_inbound`, which ignores a command that
-- has its terminal result and otherwise writes it to the journal and calls the executor. The
-- executor runs the registered handler on the outside world, changes the placement cache after a
-- success, writes the outcome to the journal, and then reports it over HTTP; a confirmed report
-- marks the row. After a reconnect the rows that are not marked are resent.
-- The loop opens one connection after the other, on the journal and the cache that the last one left.
--
-- The outside world is a parameter: the type of its states and, in `Env`, `MakerApi` and `CloudApi`,
-- the calls that the agent makes of gRPC, protobuf, httpx, the clocks and asyncio.sleep. `Live` says
-- that each of these calls comes to an end, that the clock does not go back, and that a sleep takes
-- a millisecond at least. Exceptions are values (`Exc`), with the text that `str(e)` gives. A time
-- is a number, in milliseconds where it is waited for.
--
-- Bounds and fuel: the loop over attempts of call_with_retry is a recursion on the attempts left.
-- The polling loop has fuel, one unit for each millisecond to its deadline and two more; running out
-- is the exception `stuck`, which nothing catches. Every round but the last sleeps, and a sleep takes
-- a millisecond at least, so there is a unit for every round. The loop of run_forever is a recursion
-- on the rounds, of which there may be any number; `going` says that it has not been left.
--
-- Not modelled: the gRPC calls and servers themselves, which are parameters, the locks, and
-- failures of SQLite itself. A float of config.py is kept as its text has it, and is not rounded
-- to a double; the settings of the polling and the jitter of the backoff, which are floats, are
-- given as milliseconds and thousandths, and a delay is rounded to milliseconds. A negative
-- jitter is left out. Calls of the loggers are left out where they are made. The fields of
-- protobuf messages that the agent does not read are left out. A handler runs to its end before
-- the next message is read, as in _connect_once; the heartbeat's task and the local API, which
-- run beside it, do not write to the journal. What they send while a handler runs is an event
-- before or after it. A cancel reaches the task where it waits: between two messages, or at a
-- call of a handler or a report that does not come back. One that comes in a handler's sleep is
-- taken to come at the call after it.
pub mod Prelude
pub mod Text
pub mod Json
pub mod Effects
pub mod Channel
pub mod Config
pub mod State
pub mod Clients
pub mod Agent
pub mod Commands
pub mod Control
pub mod LocalApi
pub mod Main
pub mod Observability
pub mod Tests
