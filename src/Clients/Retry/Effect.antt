-- ===== src/Clients/Retry/Effect.antt =====
-- A retried call of clients/retry.py has its effect once more at most than the calls that were worth
-- another one; once at most, if such a call has no effect; and it ends, if each call does.
use browseterm_device_agent.Prelude.{
  ℕ, zero, suc, ◌+◌, ◌-◌, ◌≤◌, ◌≡◌, ◌≢◌, refl, inl, inr, true, false, not, ◌||◌, arith, Bool-cases,
  eqb,
}
use browseterm_device_agent.Effects.{Action, err, Exc, stuck, Result-cases}
use browseterm_device_agent.Clients.Retry.{Policy, retry_delay, retry_from, call_with_retry}
use browseterm_device_agent.Clients.Retry.Bounds.{retry_from-ok, retry_from-stop, retry_from-again}

-- How often the effect has taken place, and how many calls may be repeated for it, is read off the
-- state.
module _ {S A : Type 0} (p : Policy S) (fn : Action S A) (effects repeats : S → ℕ)
    (retried : (s : S) (x : Exc)
      → (fn s).0 ≡ err x
      → p.is_retryable x ≡ true
      → effects (fn s).1 + repeats s ≤ effects s + repeats (fn s).1)
    (one_effect : (s : S) → effects (fn s).1 + repeats s ≤ effects s + 1 + repeats (fn s).1)
    (quiet : (ms : ℕ) (s : S)
      → (effects (p.pause ms s) ≡ effects s) × (repeats (p.pause ms s) ≡ repeats s)) where
  retryable_of_more :
      (attempt : ℕ) (x : Exc)
      → (eqb attempt (p.max_attempts - 1) || not (p.is_retryable x)) ≡ false
      → p.is_retryable x ≡ true
  retryable_of_more attempt x more = ground arith

  retry_from-repeats :
      (left attempt : ℕ) (s : S)
      → effects (retry_from p fn attempt left s).1 + repeats s
        ≤ effects s + 1 + repeats (retry_from p fn attempt left s).1
  retry_from-repeats zero attempt s = unfold retry_from in omega arith
  retry_from-repeats (suc left) attempt s = elim (Result-cases (fn s).0) [
    | inl (a, e) ↦ rw (retry_from-ok p fn attempt left s a e) (one_effect s)
    | inr (x, e) ↦ elim (Bool-cases (eqb attempt (p.max_attempts - 1) || not (p.is_retryable x))) [
      | inl stop ↦ rw (retry_from-stop p fn attempt left s x e stop) (one_effect s)
      | inr more ↦ rw (retry_from-again p fn attempt left s x e more) (
          omega (
            arith,
            retry_from-repeats left (attempt + 1)
                (p.pause (retry_delay p.base_delay p.max_delay attempt) (fn s).1),
            quiet (retry_delay p.base_delay p.max_delay attempt) (fn s).1,
            retried s x e (retryable_of_more attempt x more),
          ))
    ]
  ]

  pub call_with_retry-repeats :
      (s : S)
      → effects (call_with_retry p fn s).1 + repeats s
        ≤ effects s + 1 + repeats (call_with_retry p fn s).1
  call_with_retry-repeats s = unfold call_with_retry in retry_from-repeats p.max_attempts 0 s

module _ {S A : Type 0} (p : Policy S) (fn : Action S A) (effects : S → ℕ)
    (retried_without_effect : (s : S) (x : Exc)
      → (fn s).0 ≡ err x
      → p.is_retryable x ≡ true
      → effects (fn s).1 ≡ effects s)
    (one_effect : (s : S) → effects (fn s).1 ≤ effects s + 1)
    (pause_without_effect : (ms : ℕ) (s : S) → effects (p.pause ms s) ≡ effects s) where
  pub call_with_retry-once : (s : S) → effects (call_with_retry p fn s).1 ≤ effects s + 1
  call_with_retry-once s = omega (
    arith,
    call_with_retry-repeats p fn effects (λ s. 0)
        (λ s x e r. omega (arith, retried_without_effect s x e r))
        (λ s. omega (arith, one_effect s)) (λ ms s. (pause_without_effect ms s, refl)) s,
  )

module _ {S A : Type 0} (p : Policy S) (fn : Action S A)
    (ends : (s : S) → (fn s).0 ≢ err stuck) where
  retry_from-ends : (left attempt : ℕ) (s : S) → (retry_from p fn attempt left s).0 ≢ err stuck
  retry_from-ends zero attempt s = unfold retry_from in (λ h. cc)
  retry_from-ends (suc left) attempt s = elim (Result-cases (fn s).0) [
    | inl (a, e) ↦ rw (retry_from-ok p fn attempt left s a e) (λ h. cc)
    | inr (x, e) ↦ elim (Bool-cases (eqb attempt (p.max_attempts - 1) || not (p.is_retryable x))) [
      | inl stop ↦ rw (retry_from-stop p fn attempt left s x e stop) (λ h. ends s (cc))
      | inr more ↦
          rw (retry_from-again p fn attempt left s x e more) (retry_from-ends left (attempt + 1) _)
    ]
  ]

  pub call_with_retry-ends : (s : S) → (call_with_retry p fn s).0 ≢ err stuck
  call_with_retry-ends s = unfold call_with_retry in retry_from-ends p.max_attempts 0 s
