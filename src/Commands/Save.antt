-- ===== src/Commands/Save.antt =====
-- commands/save_execution.py and commands/save.py
pub mod Polling
pub mod Confirmed
use browseterm_device_agent.Prelude.{
  ℕ, zero, suc, ◌+◌, String, Bool, true, false, ◌&&◌, none, some, List, [], ◌∷◌, ◌==◌, leb,
  if◌then◌else◌,
}
use browseterm_device_agent.Text.{take_chars}
use browseterm_device_agent.Json.{Json, null, str, obj, end, field, plain, truthy, or_else}
use browseterm_device_agent.Json.Access.{get, slice}
use browseterm_device_agent.Effects.{
  Action, Result, Exc, stuck, ok, err, pure, raise, lift, handle, ◌>>=◌,
}
use browseterm_device_agent.Clients.Maker.{SavedPod, save_container}
use browseterm_device_agent.Clients.Cloud.Calls.{get_save_status}
use browseterm_device_agent.Commands.Env.{
  ExecuteCommand, Env, Reply, success, failure, on_maker_error,
}
use browseterm_device_agent.Commands.Config.{config_or_empty}

-- `None` is `null`.
pub record SaveOutcome : Type 0 where
  pub succeeded : Bool
  pub timed_out : Bool
  pub image_reference : Json
  pub pod_name : Json
  pub namespace : Json
  pub error : Json

-- No snapshot was started.
abbrev pub not_started : String → SaveOutcome
not_started error = record {
  succeeded = false;
  timed_out = false;
  image_reference = null;
  pod_name = null;
  namespace = null;
  error = str error;
}

abbrev pub confirmed : SavedPod → Json → SaveOutcome
confirmed pod image_reference = record {
  succeeded = true;
  timed_out = false;
  image_reference = image_reference;
  pod_name = str pod.pod_name;
  namespace = str pod.namespace_name;
  error = null;
}

abbrev pub unconfirmed : SavedPod → (timed_out : Bool) → (error : Json) → SaveOutcome
unconfirmed pod timed_out error = record {
  succeeded = false;
  timed_out = timed_out;
  image_reference = null;
  pod_name = str pod.pod_name;
  namespace = str pod.namespace_name;
  error = error;
}

abbrev pub timeout_outcome : SavedPod → SaveOutcome
timeout_outcome pod = unconfirmed pod true (str "Timed out waiting for snapshot confirmation")

-- `j == text`
abbrev pub is_text : String → Json → Bool
is_text text (str s) = s == text
is_text text j = false

-- `except Exception: status = {}`
abbrev empty_on_exception : {S : Type 0} → Exc → Action S Json
empty_on_exception stuck = raise stuck
empty_on_exception e = pure (obj end)

abbrev pub save_error : SaveOutcome → (or_text : String) → Json
save_error outcome or_text = or_else outcome.error (str or_text)

abbrev pub save_error_code : SaveOutcome → String
save_error_code outcome = if outcome.timed_out then "SNAPSHOT_TIMED_OUT" else "SNAPSHOT_FAILED"

-- What one answer of the Cloud decides; `none` is to wait on.
pub data Verdict : Type 0 where
  final : SaveOutcome → Verdict
  wait : Verdict

-- `status` has been asked for its "status" by now, so it is a dictionary.
unfoldable pub verdict : SavedPod → (snapshot_status image_reference error_detail : Json) → Verdict
verdict pod snapshot_status image_reference error_detail =
    if is_text "Succeeded" snapshot_status && truthy image_reference
    then final (confirmed pod image_reference)
    else if is_text "Failed" snapshot_status
    then final (unconfirmed pod false (or_else error_detail (str "Snapshot reported failed")))
    else wait

-- The end of a round; `again` is the rest of the loop.
abbrev pub after_answer :
    {W : Type 0}
    → SavedPod
    → (late : Bool) → Result Verdict
    → W
    → (again : Result SaveOutcome × W) → Result SaveOutcome × W
after_answer pod late (ok (final outcome)) w again = pure outcome w
after_answer pod late (ok wait) w again = if late then pure (timeout_outcome pod) w else again
after_answer pod late (err e) w again = raise e w

module _ {W : Type 0} (env : Env W) (container_id : String) (request_id : String) where
  unfoldable pub ask : Action W Json
  ask = handle (get_save_status env.cloud container_id request_id) pure empty_on_exception

  -- One round of the loop, up to the test of the deadline.
  unfoldable pub poll_once : SavedPod → Action W Verdict
  poll_once pod = do
    status ← ask
    snapshot_status ← lift (get status "status" null)
    image_reference ← lift (get status "image_reference" null)
    error_detail ← lift (get status "error_detail" null)
    pure (verdict pod snapshot_status image_reference error_detail)

  -- The `while True` loop, with fuel.
  unfoldable pub poll : (fuel deadline : ℕ) → SavedPod → Action W SaveOutcome
  poll zero deadline pod w = raise stuck w
  poll (suc fuel) deadline pod w =
      let (r, w') = poll_once pod w in
      let again = poll fuel deadline pod (env.sleep env.poll_interval w') in
      after_answer pod (leb deadline (env.monotonic w')) r w' again

  unfoldable pub watch : List SavedPod → Action W SaveOutcome
  watch [] w = pure (not_started "Snapshot trigger returned no pod information") w
  watch (pod ∷ pods) w = poll (env.poll_timeout + 2) (env.monotonic w + env.poll_timeout) pod w

  unfoldable pub perform_save : (network_name : Json) → Action W SaveOutcome
  unfolding watch
  perform_save network_name =
      handle (save_container env.maker container_id network_name request_id) watch
        (on_maker_error λ message. pure (not_started (take_chars 1000 message)))

-- {"saved_image": ..., "pod_name": ..., "namespace": ...}
abbrev pub saved_result : SaveOutcome → Json
saved_result outcome = obj (
    field "saved_image" outcome.image_reference
      (field "pod_name" outcome.pod_name (field "namespace" outcome.namespace end)))

-- `return None, error_code, (outcome.error or ...)[:1000]`
unfoldable pub save_failure : {W : Type 0} → SaveOutcome → (or_text : String) → Action W Reply
save_failure outcome or_text = do
  message ← lift (slice (save_error outcome or_text) 1000)
  pure (failure (save_error_code outcome) (plain message))

module _ {W : Type 0} (env : Env W) (command : ExecuteCommand) where
  abbrev pub saved_reply : SaveOutcome → Action W Reply
  saved_reply outcome =
      if outcome.succeeded
      then pure (success (saved_result outcome))
      else save_failure outcome "Save failed"

  abbrev pub save_in : (network_name : Json) → Action W Reply
  save_in network_name = do
    outcome ← perform_save env command.container_id command.trace_id network_name
    saved_reply outcome

  unfoldable pub handle_save : Action W Reply
  handle_save = do
    network_name ←
        lift (get (config_or_empty command.container_config_json) "network_name" (str ""))
    save_in network_name
