-- ===== src/Commands/Ends/Saving.antt =====
-- The handlers of device_agent/commands that save come to an end, whatever the command.
use browseterm_device_agent.Prelude.{ℕ, ◌+◌, String, ◌≡◌, ◌≢◌, refl, List, [], ◌∷◌, arith, inl, inr}
use browseterm_device_agent.Json.{Json, null, str, arr, obj}
use browseterm_device_agent.Json.Access.{get, slice}
use browseterm_device_agent.Effects.{Result, ok, err, stuck, maker_error, Result-cases}
use browseterm_device_agent.Effects.Ends.{IsDone}
use browseterm_device_agent.Clients.Maker.{
  DeleteContainerResponse, SavedPod, delete_container, save_container,
}
use browseterm_device_agent.Clients.Maker.Ends.{
  get-IsDone, delete_container-HasEnd, save_container-HasEnd,
}
use browseterm_device_agent.Commands.Env.{ExecuteCommand, Env}
use browseterm_device_agent.Commands.Config.{config_or_empty}
use browseterm_device_agent.Commands.Save.{
  SaveOutcome, save_error, watch, perform_save, save_failure, handle_save,
}
use browseterm_device_agent.Commands.Save.Polling.{poll-terminates}
use browseterm_device_agent.Commands.Hibernate.{handle_hibernate, delete_unsaved, delete_saved}
use browseterm_device_agent.Commands.Ends.{Live}

slice-IsDone : (j : Json) (n : ℕ) → IsDone (slice j n)
unfolding slice
slice-IsDone (obj fs) n = λ s. cc
slice-IsDone (arr xs) n = λ s. cc
slice-IsDone (str t) n = λ s. cc
slice-IsDone _ n = λ s. cc

module _ {W : Type 0} (env : Env W) (live : Live env) (command : ExecuteCommand) (w : W) where
  abbrev config : Json
  config = config_or_empty command.container_config_json

  save_failure-HasEnd :
      (outcome : SaveOutcome) (or_text : String) (v : W)
      → (save_failure {W = W} outcome or_text v).0 ≢ err stuck
  unfolding save_failure
  save_failure-HasEnd outcome or_text v =
      ground (arith, slice-IsDone (save_error outcome or_text) 1000)

  watch-HasEnd :
      (pods : List SavedPod) (v : W)
      → (watch env command.container_id command.trace_id pods v).0 ≢ err stuck
  unfolding watch
  watch-HasEnd [] v = λ s. cc
  watch-HasEnd (pod ∷ pods) v =
      poll-terminates env live.cloud command.container_id command.trace_id pod
        (env.poll_timeout + 2) (env.monotonic v + env.poll_timeout) v (omega arith) (omega arith)

  perform_save-after :
      (n : Json) (r : Result (List SavedPod))
      → (save_container env.maker command.container_id n command.trace_id w).0 ≡ r
      → (perform_save env command.container_id command.trace_id n w).0 ≢ err stuck
  unfolding perform_save
  perform_save-after n (ok pods) h = ground (
    arith,
    watch-HasEnd pods (save_container env.maker command.container_id n command.trace_id w).1,
  )
  perform_save-after n (err (maker_error message)) h = ground arith
  perform_save-after n (err _) h =
      ground (
        arith,
        save_container-HasEnd env.maker live.maker command.container_id n command.trace_id w,
      )

  perform_save-HasEnd :
      (n : Json) → (perform_save env command.container_id command.trace_id n w).0 ≢ err stuck
  perform_save-HasEnd n = perform_save-after n _ refl

  pub save-HasEnd : (handle_save env command w).0 ≢ err stuck
  unfolding handle_save
  save-HasEnd = elim (Result-cases (get config "network_name" (str ""))) [
    | inl (n, e) ↦
        elim (Result-cases (perform_save env command.container_id command.trace_id n w).0) [
          | inl (o, h) ↦ ground (
            arith,
            save_failure-HasEnd o "Save failed"
                (perform_save env command.container_id command.trace_id n w).1,
          )
          | inr (x, h) ↦ ground (arith, perform_save-HasEnd n)
        ]
    | inr (x, e) ↦ ground (arith, get-IsDone config "network_name" (str ""))
  ]

  delete_unsaved-after :
      (n : Json) (r : Result DeleteContainerResponse)
      → (delete_container env.maker command.container_id n command.trace_id w).0 ≡ r
      → (delete_unsaved env command n w).0 ≢ err stuck
  unfolding delete_unsaved
  delete_unsaved-after n (ok response) h = ground arith
  delete_unsaved-after n (err (maker_error message)) h = ground arith
  delete_unsaved-after n (err _) h = ground (
    arith,
    delete_container-HasEnd env.maker live.maker command.container_id n command.trace_id w,
  )

  delete_saved-after :
      (n : Json) (o : SaveOutcome) (v : W) (r : Result DeleteContainerResponse)
      → (delete_container env.maker command.container_id n command.trace_id v).0 ≡ r
      → (delete_saved env command n o v).0 ≢ err stuck
  unfolding delete_saved
  delete_saved-after n o v (ok response) h =
      ground (arith, save_failure-HasEnd o "Snapshot failed" v)
  delete_saved-after n o v (err (maker_error message)) h =
      ground (arith, save_failure-HasEnd o "Snapshot failed" v)
  delete_saved-after n o v (err _) h = ground (
    arith,
    save_failure-HasEnd o "Snapshot failed" v,
    delete_container-HasEnd env.maker live.maker command.container_id n command.trace_id v,
  )

  pub hibernate-HasEnd : (handle_hibernate env command w).0 ≢ err stuck
  unfolding handle_hibernate
  hibernate-HasEnd = elim (Result-cases (get config "network_name" (str ""))) [
    | inl (n, e) ↦ elim (Result-cases (get config "skip_save" null)) [
      | inl (skip, k) ↦
          elim (Result-cases (perform_save env command.container_id command.trace_id n w).0) [
            | inl (o, h) ↦ ground (
              arith,
              delete_unsaved-after n _ refl,
              delete_saved-after n o (perform_save env command.container_id command.trace_id n w).1
                  _ refl,
            )
            | inr (x, h) ↦ ground (arith, delete_unsaved-after n _ refl, perform_save-HasEnd n)
          ]
      | inr (x, k) ↦ ground (arith, get-IsDone config "skip_save" null)
    ]
    | inr (x, e) ↦ ground (arith, get-IsDone config "network_name" (str ""))
  ]
