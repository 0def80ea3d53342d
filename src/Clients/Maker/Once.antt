-- ===== src/Clients/Maker/Once.antt =====
-- How often Container Maker processes a request that clients/container_maker_client.py retries. That
-- a request is answered by UNAVAILABLE does not mean that it was not processed: the connection may
-- have been lost after it.
use browseterm_device_agent.Prelude.{
  ℕ, ◌+◌, ◌≤◌, String, ◌≡◌, refl, inl, inr, true, Option, none, some, arith,
}
use browseterm_device_agent.Json.{Json}
use browseterm_device_agent.Effects.{
  Action, handle, pure, ◌>>◌, err, Exc, rpc_error, unavailable, Result-cases,
}
use browseterm_device_agent.Clients.Retry.{call_with_retry}
use browseterm_device_agent.Clients.Retry.Effect.{call_with_retry-repeats}
use browseterm_device_agent.Clients.Maker.{
  MakerApi, ContainerRequest, CreateArguments, CreateContainerRequest, is_retryable, default_policy,
  create_container, delete_container, save_container, build_create, wrap, accept,
}

-- A call of the stub, with the number of requests that Container Maker has processed, and the number
-- of those that were answered by UNAVAILABLE: each request is processed once at most.
pub record SeesOnce {W A : Type 0} (processed unavailable_answers : W → ℕ) (call : Action W A)
    : Type 0 where
  pub counted :
      (w : W) (message : String)
      → (call w).0 ≡ err (rpc_error (some unavailable) message)
      → unavailable_answers (call w).1 ≡ unavailable_answers w + 1
  pub kept : (w : W) → unavailable_answers w ≤ unavailable_answers (call w).1
  pub once : (w : W) → processed (call w).1 ≤ processed w + 1

-- Between these two states a request was processed once more at most than it was answered by
-- UNAVAILABLE.
abbrev pub IsRepeated :
    {W : Type 0} → (processed unavailable_answers : W → ℕ) → (before after : W) → Type 0
IsRepeated processed unavailable_answers before after =
    processed after + unavailable_answers before ≤ processed before + 1 + unavailable_answers after

module _ {W A : Type 0} (pause : ℕ → W → W) (processed unavailable_answers : W → ℕ)
    (quiet : (ms : ℕ) (w : W)
      → (processed (pause ms w) ≡ processed w)
        × (unavailable_answers (pause ms w) ≡ unavailable_answers w))
    (call : Action W A) (sees : SeesOnce processed unavailable_answers call) where
  counted_of_retryable :
      (w : W) (x : Exc)
      → (call w).0 ≡ err x
      → is_retryable x ≡ true
      → processed (call w).1 + unavailable_answers w ≤ processed w + unavailable_answers (call w).1
  unfolding is_retryable
  counted_of_retryable w (rpc_error (some unavailable) message) e r =
      omega (arith, sees.once w, sees.counted w message e)
  counted_of_retryable w _ e r = absurd (cc)

  retried-repeats :
      (w : W)
      → IsRepeated processed unavailable_answers w
          (call_with_retry (default_policy pause is_retryable) call w).1
  retried-repeats =
      call_with_retry-repeats (default_policy pause is_retryable) call processed unavailable_answers
        counted_of_retryable (λ w. omega (arith, sees.once w, sees.kept w)) quiet

wrap-world :
    {W : Type 0} (A : Type 0) (prefix : String) (x : Exc) (w : W)
    → (wrap {S = W} {A = A} prefix x w).1 ≡ w
unfolding wrap
wrap-world A prefix (rpc_error code message) w = refl
wrap-world A prefix _ w = refl

handle-wrap-world :
    {W A : Type 0} (m : Action W A) (prefix : String) (w : W)
    → (handle m pure (wrap prefix) w).1 ≡ (m w).1
handle-wrap-world {A = A} m prefix w = elim (Result-cases (m w).0) [
  | inl (a, e) ↦ ground arith
  | inr (x, e) ↦ ground (arith, wrap-world A prefix x (m w).1)
]

-- A request that may be refused before the call, and the call.
module _ {W : Type 0} (pause : ℕ → W → W) (processed unavailable_answers : W → ℕ)
    (quiet : (ms : ℕ) (w : W)
      → (processed (pause ms w) ≡ processed w)
        × (unavailable_answers (pause ms w) ≡ unavailable_answers w)) where
  request-repeats :
      {A : Type 0} (call : Action W A) (refused : Option String) (prefix : String) (w : W)
      → SeesOnce processed unavailable_answers call
      → IsRepeated processed unavailable_answers w
          ((accept refused
              >> handle
                  (call_with_retry (default_policy pause is_retryable) call)
                  pure
                  (wrap prefix))
            w).1
  request-repeats call none prefix w sees =
      rw handle-wrap-world (retried-repeats pause processed unavailable_answers quiet call sees w)
  request-repeats call (some message) prefix w sees = omega arith

module _ {W : Type 0} (api : MakerApi W) (processed unavailable_answers : W → ℕ)
    (quiet : (ms : ℕ) (w : W)
      → (processed (api.pause ms w) ≡ processed w)
        × (unavailable_answers (api.pause ms w) ≡ unavailable_answers w))
    (request_id : String) (w : W) where
  create_container-repeats :
      (a : CreateArguments)
      → ((request : CreateContainerRequest)
          → SeesOnce processed unavailable_answers (api.create request a.request_id))
      → IsRepeated processed unavailable_answers w (create_container api a w).1
  unfolding create_container
  create_container-repeats a sees = elim (Result-cases (build_create a)) [
    | inl (request, e) ↦ rw e (
        request-repeats api.pause processed unavailable_answers quiet _ (api.refuse_create request)
          _ w (sees request))
    | inr (x, e) ↦ rw e (omega arith)
  ]

  -- If every request is processed once at most, every UNAVAILABLE is counted, and the pauses change
  -- neither count, then a create, a delete and a save, each with its retries, are processed once
  -- more at most than they were answered by UNAVAILABLE, and so once at most where they were not.
  pub calls-IsRepeated :
      (a : CreateArguments) (container_id : String) (network_name : Json)
      → ((request : CreateContainerRequest)
          → SeesOnce processed unavailable_answers (api.create request a.request_id))
      → ((request : ContainerRequest)
          → SeesOnce processed unavailable_answers (api.delete request request_id))
      → ((request : ContainerRequest)
          → SeesOnce processed unavailable_answers (api.save request request_id))
      → IsRepeated processed unavailable_answers w (create_container api a w).1
        × IsRepeated processed unavailable_answers w
            (delete_container api container_id network_name request_id w).1
        × IsRepeated processed unavailable_answers w
            (save_container api container_id network_name request_id w).1
  unfolding delete_container save_container
  calls-IsRepeated a container_id network_name creates deletes saves = (
    create_container-repeats a creates,
    request-repeats api.pause processed unavailable_answers quiet _ (api.refuse _) _ w (deletes _),
    request-repeats api.pause processed unavailable_answers quiet _ (api.refuse _) _ w (saves _),
  )
