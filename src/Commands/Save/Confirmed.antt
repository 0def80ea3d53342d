-- ===== src/Commands/Save/Confirmed.antt =====
-- commands/save_execution.py reports a success only on a confirmation by the Cloud.
use browseterm_device_agent.Prelude.{
  ℕ, zero, suc, String, ◌≡◌, true, inl, inr, arith, leb, eq_iff, Bool-cases, List, ◌∙◌,
}
use browseterm_device_agent.Json.{Json, null, str, truthy}
use browseterm_device_agent.Json.Access.{get}
use browseterm_device_agent.Effects.{Result, ok, Result-cases}
use browseterm_device_agent.Clients.Maker.{SavedPod, save_container}
use browseterm_device_agent.Commands.Env.{Env}
use browseterm_device_agent.Commands.Save.{
  SaveOutcome, Verdict, final, wait, verdict, is_text, ask, poll_once, poll,
}
use browseterm_device_agent.Commands.Save.Polling.{poll-final, poll-raise, poll-late, poll-again}

-- At some moment the Cloud answered that the save had succeeded, with this image.
pub record Confirmed {W : Type 0} (env : Env W) (container_id request_id : String) (image : Json)
    : Type 0 where
  pub moment : W
  pub answer : Json
  pub answered : (ask env container_id request_id moment).0 ≡ ok answer
  pub said : get answer "status" null ≡ ok (str "Succeeded")
  pub with_image : get answer "image_reference" null ≡ ok image
  pub is_real : truthy image ≡ true

is_text→str : (t : String) (j : Json) → is_text t j ≡ true → j ≡ str t
is_text→str t (str s) h = ground (arith, eq_iff s t)
is_text→str t _ h = cc

verdict-succeeded :
    (pod : SavedPod) (status image detail : Json) (outcome : SaveOutcome)
    → verdict pod status image detail ≡ final outcome
    → outcome.succeeded ≡ true
    → (is_text "Succeeded" status ≡ true)
      × (truthy image ≡ true)
      × (image ≡ outcome.image_reference)
unfolding verdict
verdict-succeeded pod status image detail outcome h s = ground arith

module _ {W : Type 0} (env : Env W) (container_id request_id : String) (pod : SavedPod) where
  -- The parts of a round that has come to a verdict.
  pub once-parts :
      (w : W) (v : Verdict)
      → (poll_once env container_id request_id pod w).0 ≡ ok v
      → (answer status image detail : Json) × ((ask env container_id request_id w).0 ≡ ok answer)
        × (get answer "status" null ≡ ok status)
        × (get answer "image_reference" null ≡ ok image)
        × (v ≡ verdict pod status image detail)
  unfolding poll_once
  once-parts w v h = elim (Result-cases (ask env container_id request_id w).0) [
    | inl (answer, a) ↦ elim (Result-cases (get answer "status" null)) [
      | inl (status, b) ↦ elim (Result-cases (get answer "image_reference" null)) [
        | inl (image, c) ↦ elim (Result-cases (get answer "error_detail" null)) [
          | inl (detail, d) ↦ (answer, status, image, detail, a, b, c, ground arith)
          | inr (x, d) ↦ absurd (ground arith)
        ]
        | inr (x, c) ↦ absurd (ground arith)
      ]
      | inr (x, b) ↦ absurd (ground arith)
    ]
    | inr (x, a) ↦ absurd (ground arith)
  ]

  once-Confirmed :
      (w : W) (outcome : SaveOutcome)
      → (poll_once env container_id request_id pod w).0 ≡ ok (final outcome)
      → outcome.succeeded ≡ true
      → Confirmed env container_id request_id outcome.image_reference
  once-Confirmed w outcome h s =
      let (answer, status, image, detail, answered, said, with_image, e) =
        once-parts w (final outcome) h in
      let (succeeded, real, same) = verdict-succeeded pod status image detail outcome (cc) s in
      record {
        moment = w;
        answer = answer;
        answered = answered;
        said = cc (is_text→str "Succeeded" status succeeded);
        with_image = cc;
        is_real = cc;
      }

  -- A success of the loop carries the image of an answer of the Cloud that said "Succeeded".
  pub poll-Confirmed :
      (fuel deadline : ℕ) (w : W) (outcome : SaveOutcome)
      → (poll env container_id request_id fuel deadline pod w).0 ≡ ok outcome
      → outcome.succeeded ≡ true
      → Confirmed env container_id request_id outcome.image_reference
  poll-Confirmed zero deadline w outcome h s = absurd (unfold poll in cc)
  poll-Confirmed (suc fuel) deadline w outcome h s =
      elim (Result-cases (poll_once env container_id request_id pod w).0) [
        | inl (final o, e) ↦
            let done = (rw (poll-final env container_id request_id pod fuel deadline w o e) at h) in
            once-Confirmed w outcome (e ∙ cc done) s
        | inl (wait, e) ↦
            elim (Bool-cases
              (leb deadline (env.monotonic (poll_once env container_id request_id pod w).1))) [
                | inl late ↦
                    let done =
                      (rw (poll-late env container_id request_id pod fuel deadline w e late) at
                        h) in
                    absurd (ground arith)
                | inr early ↦
                    poll-Confirmed fuel deadline _ outcome
                      (rw (poll-again env container_id request_id pod fuel deadline w e early) at h)
                      s
              ]
        | inr (x, e) ↦
            let done = (rw (poll-raise env container_id request_id pod fuel deadline w x e) at h) in
            absurd (ground arith)
      ]

module _ {W : Type 0} (env : Env W) (container_id request_id : String) (network_name : Json) where
  abbrev triggered : W → Result (List SavedPod) × W
  triggered = save_container env.maker container_id network_name request_id
