-- ===== src/Clients/Retry/Bounds.antt =====
-- How often `call_with_retry` of clients/retry.py calls, and what it hands back.
use browseterm_device_agent.Prelude.{
  ℕ, zero, suc, ◌+◌, ◌-◌, ◌≤◌, ◌<◌, ◌≡◌, ◌⊎◌, inl, inr, Bool, true, false, not, ◌||◌, arith,
  Bool-cases, eqb, ℕ_discrete,
}
use native.Mathlib.Numerals.{add-one}
use browseterm_device_agent.Effects.{Action, Result, ok, err, Exc, Result-cases}
use browseterm_device_agent.Clients.Retry.{Policy, retry_delay, retry_from, call_with_retry}

-- The outcome of one call is worth another call.
abbrev pub retries : {A : Type 0} → (Exc → Bool) → Result A → Bool
retries f (ok a) = false
retries f (err e) = f e

-- A call with a scripted outcome for each time that it is made; the state counts the calls.
abbrev pub scripted : {A : Type 0} → (ℕ → Result A) → Action ℕ A
scripted outcomes n = (outcomes n, suc n)

-- The loop has ended by its call number `last`, counted from 0, and handed back its outcome. The
-- calls before it were all worth another one, and it was the last allowed or not worth another.
pub record Ends {A : Type 0} (p : Policy ℕ) (outcomes : ℕ → Result A) (from : ℕ)
    (done : Result A × ℕ) : Type 0 where
  pub last : ℕ
  pub started : from ≤ last
  pub allowed : last < p.max_attempts
  pub result : done ≡ (outcomes last, suc last)
  pub before : (j : ℕ) → from ≤ j → j < last → retries p.is_retryable (outcomes j) ≡ true
  pub stops : (suc last ≡ p.max_attempts) ⊎ (retries p.is_retryable (outcomes last) ≡ false)

-- One round of the loop, by how its call ends.
module _ {S A : Type 0} (p : Policy S) (fn : Action S A) (attempt left : ℕ) (s : S) where
  pub retry_from-ok :
      (a : A) → (fn s).0 ≡ ok a → retry_from p fn attempt (suc left) s ≡ (ok a, (fn s).1)
  unfolding retry_from
  retry_from-ok a e = ground arith

  pub retry_from-stop :
      (x : Exc)
      → (fn s).0 ≡ err x
      → (eqb attempt (p.max_attempts - 1) || not (p.is_retryable x)) ≡ true
      → retry_from p fn attempt (suc left) s ≡ (err x, (fn s).1)
  unfolding retry_from
  retry_from-stop x e stop = ground arith

  pub retry_from-again :
      (x : Exc)
      → (fn s).0 ≡ err x
      → (eqb attempt (p.max_attempts - 1) || not (p.is_retryable x)) ≡ false
      → retry_from p fn attempt (suc left) s
        ≡ retry_from p fn
            (attempt + 1)
            left
            (p.pause (retry_delay p.base_delay p.max_delay attempt) (fn s).1)
  unfolding retry_from
  retry_from-again x e more = ground arith

module _ {A : Type 0} (p : Policy ℕ) (outcomes : ℕ → Result A) where
  Ends-later :
      (attempt : ℕ) {done : Result A × ℕ}
      → retries p.is_retryable (outcomes attempt) ≡ true
      → Ends p outcomes (suc attempt) done
      → Ends p outcomes attempt done
  Ends-later attempt again e = record {
    last = e.last;
    started = omega (arith, e.started);
    allowed = e.allowed;
    result = e.result;
    before = λ j from lt. elim (ℕ_discrete j attempt) [
      | yes same ↦ rw same again
      | no other_call ↦ e.before j (omega arith) lt
    ];
    stops = e.stops;
  }

  Ends-here :
      (attempt : ℕ) {done : Result A × ℕ}
      → attempt < p.max_attempts
      → done ≡ (outcomes attempt, suc attempt)
      → (suc attempt ≡ p.max_attempts) ⊎ (retries p.is_retryable (outcomes attempt) ≡ false)
      → Ends p outcomes attempt done
  Ends-here attempt lt e stops = record {
    last = attempt;
    started = omega arith;
    allowed = lt;
    result = e;
    before = λ j a b. absurd (omega arith);
    stops = stops;
  }

  -- The pauses of a scripted run do not touch the count.
  module _ (quiet : (ms n : ℕ) → p.pause ms n ≡ n) where
    retry_from-Ends :
        (left attempt : ℕ)
        → attempt + left ≡ p.max_attempts
        → 0 < left
        → Ends p outcomes attempt (retry_from p (scripted outcomes) attempt left attempt)
    retry_from-Ends zero attempt h pos = absurd (omega arith)
    retry_from-Ends (suc left) attempt h pos = elim (Result-cases (outcomes attempt)) [
      | inl (a, e) ↦
          Ends-here attempt (omega arith)
            (rw e (retry_from-ok p (scripted outcomes) attempt left attempt a e)) (inr (rw e))
      | inr (x, e) ↦
          elim (Bool-cases (eqb attempt (p.max_attempts - 1) || not (p.is_retryable x))) [
            | inl stop ↦
                Ends-here attempt (omega arith)
                  (rw e (retry_from-stop p (scripted outcomes) attempt left attempt x e stop))
                  (rw e (ground arith))
            | inr more ↦
                rw (retry_from-again p (scripted outcomes) attempt left attempt x e more, quiet)
                  (Ends-later attempt (rw e (ground arith))
                    (rw add-one (retry_from-Ends left (suc attempt) (omega arith) (ground arith))))
          ]
    ]

    -- For any script of outcomes and one attempt at least, call_with_retry returns the outcome of
    -- its last call: that is the first outcome that is not worth another call, or that of the
    -- last allowed attempt, and every call before it was worth another one.
    pub call_with_retry-Ends :
        0 < p.max_attempts → Ends p outcomes 0 (call_with_retry p (scripted outcomes) 0)
    unfolding call_with_retry
    call_with_retry-Ends pos = retry_from-Ends p.max_attempts 0 (omega arith) pos
