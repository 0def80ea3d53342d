-- ===== src/Clients/Retry/Outcome.antt =====
-- What holds of the outcome of every call holds of that of `call_with_retry` of clients/retry.py.
use browseterm_device_agent.Prelude.{
  ℕ, zero, suc, ◌+◌, ◌-◌, ◌<◌, ◌≡◌, inl, inr, not, ◌||◌, arith, Bool-cases, eqb,
}
use browseterm_device_agent.Effects.{Action, Result, Result-cases}
use browseterm_device_agent.Clients.Retry.{Policy, retry_from, call_with_retry}
use browseterm_device_agent.Clients.Retry.Bounds.{retry_from-ok, retry_from-stop, retry_from-again}

module _ {S A : Type 0} (p : Policy S) (fn : Action S A) (P : Result A → Type 0)
    (each : (s : S) → P (fn s).0) where
  retry_from-all :
      (left attempt : ℕ) (s : S)
      → attempt + left ≡ p.max_attempts
      → 0 < left
      → P (retry_from p fn attempt left s).0
  retry_from-all zero attempt s h pos = absurd (omega arith)
  retry_from-all (suc left) attempt s h pos =
      let held = each s in
      elim (Result-cases (fn s).0) [
        | inl (a, e) ↦ rw (retry_from-ok p fn attempt left s a e) (rw e at held)
        | inr (x, e) ↦
            elim (Bool-cases (eqb attempt (p.max_attempts - 1) || not (p.is_retryable x))) [
              | inl stop ↦ rw (retry_from-stop p fn attempt left s x e stop) (rw e at held)
              | inr more ↦
                  rw (retry_from-again p fn attempt left s x e more)
                    (retry_from-all left (attempt + 1) _ (omega arith) (ground arith))
            ]
      ]

  pub call_with_retry-all : (s : S) → 0 < p.max_attempts → P (call_with_retry p fn s).0
  call_with_retry-all s pos =
      unfold call_with_retry in retry_from-all p.max_attempts 0 s (omega arith) pos
