-- ===== src/Commands/Typing/Saved.antt =====
-- What commands/save_execution.py returns, and what commands/save.py and commands/hibernate.py
-- reply with.
use browseterm_device_agent.Prelude.{
  ℕ, zero, suc, String, ◌≡◌, Bool, true, false, List, [], ◌∷◌, member, arith, ◌&&◌, Bool-cases, inl,
  inr,
}
use browseterm_device_agent.Text.{take_chars}
use browseterm_device_agent.Json.{Json, plain, truthy}
use browseterm_device_agent.Json.Access.{slice}
use browseterm_device_agent.Effects.{Result, ok, err, pure, lift}
use browseterm_device_agent.Effects.Post.{
  Post, returns, raises, Gives, Anything, Post-of, Post-any, Gives-on_maker_error, Gives-bind,
  Gives-handle,
}
use browseterm_device_agent.Clients.Maker.{SavedPod, save_container}
use browseterm_device_agent.Commands.Env.{Operation, Env, failure, on_maker_error}
use browseterm_device_agent.Commands.Save.{
  SaveOutcome, Verdict, final, wait, verdict, not_started, poll_once, poll, after_answer, watch,
  perform_save, is_text, save_error, save_error_code, saved_result, save_failure,
}
use browseterm_device_agent.Commands.Save.Confirmed.{once-parts}
use browseterm_device_agent.Commands.Typing.{
  HasType, of_text, of_real, of_object, no_fields, with_field, IsReply, fails, save_type,
  error_codes,
}

-- An outcome that is a success has a result of the type of a save.
pub record IsOutcome (o : SaveOutcome) : Type 0 where
  pub typed : o.succeeded ≡ true → HasType (saved_result o) save_type

abbrev IsVerdict : Verdict → Type 0
IsVerdict (final o) = IsOutcome o
IsVerdict wait = Unit

verdict-IsVerdict :
    (pod : SavedPod) (status image detail : Json) → IsVerdict (verdict pod status image detail)
unfolding verdict
verdict-IsVerdict pod status image detail =
    elim (Bool-cases (is_text "Succeeded" status && truthy image)) [
      | inl done ↦ rw done (record {
        typed = λ e. of_object (
            with_field (of_real (ground arith))
              (with_field of_text (with_field of_text no_fields)));
      })
      | inr not_done ↦ elim (Bool-cases (is_text "Failed" status)) [
        | inl failed ↦ rw (not_done, failed) (record { typed = λ e. cc })
        | inr waits ↦ rw (not_done, waits) tt
      ]
    ]

module _ {W : Type 0} (env : Env W) (container_id request_id : String) where
  poll_once-Gives : (pod : SavedPod) → Gives IsVerdict (poll_once env container_id request_id pod)
  poll_once-Gives pod w = Post-of _ λ v h.
      (let (answer, status, image, detail, a, b, c, same) =
          once-parts env container_id request_id pod w v h in
        rw same (verdict-IsVerdict pod status image detail))

  poll-step :
      (r : Result Verdict) (late : Bool) (w : W) (pod : SavedPod) (again : Result SaveOutcome × W)
      → Post IsVerdict r
      → Post IsOutcome again.0
      → Post IsOutcome (after_answer pod late r w again).0
  poll-step (ok (final outcome)) late w pod again (returns h) k = returns h
  poll-step (ok wait) true w pod again h k = returns (record { typed = λ e. cc })
  poll-step (ok wait) false w pod again h k = k
  poll-step (err e) late w pod again h k = raises

  poll-Gives :
      (fuel deadline : ℕ) (pod : SavedPod)
      → Gives IsOutcome (poll env container_id request_id fuel deadline pod)
  unfolding poll
  poll-Gives zero deadline pod w = raises
  poll-Gives (suc fuel) deadline pod w =
      poll-step (poll_once env container_id request_id pod w).0 _ _ pod _ (poll_once-Gives pod w)
        (poll-Gives fuel deadline pod _)

  watch-Gives : (pods : List SavedPod) → Gives IsOutcome (watch env container_id request_id pods)
  unfolding watch
  watch-Gives [] w = returns (record { typed = λ e. cc })
  watch-Gives (pod ∷ pods) w = poll-Gives _ _ pod w

  pub perform_save-Gives :
      (network_name : Json)
      → Gives IsOutcome (perform_save env container_id request_id network_name)
  unfolding perform_save
  perform_save-Gives network_name =
      Gives-handle {Q = Anything} (save_container env.maker container_id network_name request_id)
        (watch env container_id request_id)
        (on_maker_error (λ message. pure (not_started (take_chars 1000 message)))) (λ s. Post-any _)
        (λ pods q. watch-Gives pods)
        (Gives-on_maker_error _ λ message s. returns (record { typed = λ e. cc }))

-- A save that fails is reported with one of two codes.
pub save_failure-Gives :
    {W : Type 0} (o : Operation) (outcome : SaveOutcome) (or_text : String)
    → member "SNAPSHOT_TIMED_OUT" (error_codes o) ≡ true
    → member "SNAPSHOT_FAILED" (error_codes o) ≡ true
    → Gives {S = W} (IsReply o) (save_failure outcome or_text)
unfolding save_failure
save_failure-Gives o outcome or_text timed_out failed =
    Gives-bind {Q = Anything} (lift (slice (save_error outcome or_text) 1000))
      (λ message. pure (failure (save_error_code outcome) (plain message))) (λ s. Post-any _)
      λ message q s. returns (
        fails (elim (Bool-cases outcome.timed_out) [
          | inl late ↦ rw late timed_out
          | inr other ↦ rw other failed
        ]))
