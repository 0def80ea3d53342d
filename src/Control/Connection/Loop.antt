-- ===== src/Control/Connection/Loop.antt =====
-- `run_forever` of control/grpc_client.py. How the connections go, what the random generator draws
-- and when `stop` is called or the task is cancelled is not the loop's to say: a list of rounds has
-- it. What the local API sends during a sleep is left out: the next connection opens a queue of its
-- own.
pub mod Delays
use browseterm_device_agent.Prelude.{
  ℕ, zero, suc, ◌+◌, Bool, true, false, ◌||◌, String, List, [], ◌∷◌, if◌then◌else◌,
}
use browseterm_device_agent.Effects.{Action, Result, ok, err, Exc, stuck, other, rpc_error}
use browseterm_device_agent.Commands.Env.{ExecuteCommand, Env}
use browseterm_device_agent.Control.Backoff.{backoff_seconds}
use browseterm_device_agent.Control.Connection.Stream.{Event, connect_once}
use browseterm_device_agent.Agent.{Agent, Message}

-- How the call ends if no message of it raises: it is over, it raises, or the task is cancelled. The
-- task is cancelled between two messages, or where the handling of a message waits for a call that
-- does not come back, which is `stuck`: neither of the two is caught by `except Exception`, and what
-- the handling has done by then stays done.
pub data Close : Type 0 where
  over : Close
  raised : Exc → Close
  cancelled : Close

-- One turn of the loop. `stopped` says that `stop` was called by the end of the connection,
-- `woken` how the sleep after it ends.
pub data Connecting (W : Type 0) : Type 0 where
  no_channel : Connecting W
  connecting : List (Event W) → Close → Connecting W

pub data Wake : Type 0 where
  rested stopped_asleep cancelled_asleep : Wake

pub record Round (W : Type 0) : Type 0 where
  pub connection : Connecting W
  pub stopped : Bool
  pub uniform : ℕ → ℕ
  pub woken : Wake

-- How an `await self._connect_once()` ends for the loop. `hung` is no end: a handler has not
-- returned, and nobody has cancelled it.
pub data Ending : Type 0 where
  clean failed interrupted hung : Ending

-- `going` is the loop that has gone through the rounds and is not over.
pub data Exit : Type 0 where
  returned cancelled_error hanging going : Exit

pub record Loop (W : Type 0) : Type 0 where
  pub exit : Exit
  pub delays : List ℕ
  pub agent : Agent W

abbrev pub ending_of_close : Close → Ending
ending_of_close over = clean
ending_of_close (raised e) = failed
ending_of_close cancelled = interrupted

-- Where the handling of a message does not come back, the task hangs until it is cancelled.
abbrev pub ending_of_stuck : Close → Ending
ending_of_stuck cancelled = interrupted
ending_of_stuck _ = hung

-- An exception of a message, or the end of the call.
abbrev pub ending_of : Result (Unit {0}) → Close → Ending
ending_of (ok done) c = ending_of_close c
ending_of (err stuck) c = ending_of_stuck c
ending_of (err e) c = failed

-- `attempt = 0` after a clean end
abbrev pub attempt_after : Ending → ℕ → ℕ
attempt_after clean attempt = 0
attempt_after _ attempt = attempt

abbrev pub with_delay : {W : Type 0} → ℕ → Loop W → Loop W
with_delay delay l = record l { delays = delay ∷ l.delays }

abbrev pub exits : {W : Type 0} → Exit → List ℕ → Agent W → Loop W
exits exit delays a = record { exit = exit; delays = delays; agent = a }

abbrev pub asleep : {W : Type 0} → Env W → ℕ → Agent W → Agent W
asleep env delay a = record a { world = env.sleep delay a.world }

-- `asyncio.sleep(delay)`, after which the loop stands at `c`, and the rest of the loop from there.
abbrev pub after_sleep : {W : Type 0} → Wake → ℕ → Agent W → Loop W → Loop W
after_sleep rested delay c rest = with_delay delay rest
after_sleep stopped_asleep delay c rest = exits returned (delay ∷ []) c
after_sleep cancelled_asleep delay c rest = exits cancelled_error (delay ∷ []) c

-- A connection that has ended with the agent at `b`.
abbrev pub after_round :
    {W : Type 0} → Ending → (stopped : Bool) → Wake → ℕ → (b c : Agent W) → Loop W → Loop W
after_round interrupted stopped woken delay b c rest = exits cancelled_error [] b
after_round hung stopped woken delay b c rest = exits hanging [] b
after_round _ stopped woken delay b c rest =
    if stopped then exits returned [] b else after_sleep woken delay c rest

module _ {W : Type 0} (env : Env W)
    (on_execute_command : String → ExecuteCommand → Action (Agent W) (Unit {0}))
    (greeting : Message) where
  unfoldable pub try_connect : Connecting W → Agent W → Ending × Agent W
  unfolding connect_once
  try_connect no_channel a = (failed, a)
  try_connect (connecting es c) a =
      let (r, s) = connect_once env on_execute_command greeting es a in (ending_of r c, s.agent)

  -- The `while` loop, with `stop` not called yet.
  unfoldable pub run_from : List (Round W) → (attempt : ℕ) → Agent W → Loop W
  unfolding try_connect backoff_seconds
  run_from [] attempt a = exits going [] a
  run_from (r ∷ rs) attempt a =
      let (ending, b) = try_connect r.connection a in
      let n = attempt_after ending attempt in
      let delay = backoff_seconds env.jitter r.uniform n in
      let c = asleep env delay b in
      after_round ending r.stopped r.woken delay b c (run_from rs (n + 1) c)

  unfoldable pub run_forever : (stopped : Bool) → List (Round W) → Agent W → Loop W
  unfolding run_from
  run_forever stopped rs a = if stopped then exits returned [] a else run_from rs 0 a
