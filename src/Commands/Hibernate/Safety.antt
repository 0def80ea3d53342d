-- ===== src/Commands/Hibernate/Safety.antt =====
-- commands/hibernate.py does not delete a pod whose save the Cloud has not confirmed.
use browseterm_device_agent.Prelude.{◌≡◌, refl, false, arith, inl, inr}
use browseterm_device_agent.Json.{Json, null, str, truthy}
use browseterm_device_agent.Json.Access.{get}
use browseterm_device_agent.Effects.{Result, ok, err, Exc, Result-cases}
use browseterm_device_agent.Clients.Maker.{DeleteContainerResponse, delete_container}
use browseterm_device_agent.Commands.Env.{ExecuteCommand, Env}
use browseterm_device_agent.Commands.Config.{config_or_empty}
use browseterm_device_agent.Commands.Save.{SaveOutcome, perform_save, save_failure}
use browseterm_device_agent.Commands.Save.Confirmed.{Confirmed}
use browseterm_device_agent.Commands.Hibernate.{handle_hibernate, delete_saved}

-- The command asks for a save: its configuration can be read and does not skip it.
pub record SavesFirst (command : ExecuteCommand) (network_name : Json) : Type 0 where
  pub skip_save : Json
  pub named :
      get (config_or_empty command.container_config_json) "network_name" (str "") ≡ ok network_name
  pub asked : get (config_or_empty command.container_config_json) "skip_save" null ≡ ok skip_save
  pub not_skipped : truthy skip_save ≡ false

module _ {W : Type 0} (env : Env W) (command : ExecuteCommand) (network_name : Json)
    (first : SavesFirst command network_name) (w : W) where
  abbrev saved : Result SaveOutcome × W
  saved = perform_save env command.container_id command.trace_id network_name w

  abbrev deleted : W → Result DeleteContainerResponse × W
  deleted = delete_container env.maker command.container_id network_name command.trace_id

  hibernate-raised : (e : Exc) → saved.0 ≡ err e → handle_hibernate env command w ≡ (err e, saved.1)
  unfolding handle_hibernate
  hibernate-raised e h = ground (arith, first.named, first.asked, first.not_skipped)

  hibernate-saved :
      (o : SaveOutcome)
      → saved.0 ≡ ok o
      → handle_hibernate env command w ≡ delete_saved env command network_name o saved.1
  unfolding handle_hibernate
  hibernate-saved o h = ground (arith, first.named, first.asked, first.not_skipped)

  failed-untouched :
      (o : SaveOutcome) (v : W)
      → o.succeeded ≡ false
      → (delete_saved env command network_name o v).1 ≡ v
  unfolding delete_saved save_failure
  failed-untouched o v h = ground arith

  -- If a hibernation is to save first and no save succeeds, then the outside world is left as the
  -- save leaves it: no delete is sent.
  pub hibernate-unsaved :
      ((o : SaveOutcome)
        → (perform_save env command.container_id command.trace_id network_name w).0 ≡ ok o
        → o.succeeded ≡ false)
      → (handle_hibernate env command w).1
        ≡ (perform_save env command.container_id command.trace_id network_name w).1
  hibernate-unsaved unsaved = elim (Result-cases saved.0) [
    | inl (o, h) ↦ rw (hibernate-saved o h) (failed-untouched o saved.1 (unsaved o h))
    | inr (e, h) ↦ rw (hibernate-raised e h) refl
  ]
