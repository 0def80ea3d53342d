-- ===== src/Clients/Retry.antt =====
-- clients/retry.py. A delay is a number of milliseconds; `pause` is `asyncio.sleep` for the delay
-- times the random factor.
pub mod Bounds
pub mod Effect
pub mod Outcome
use browseterm_device_agent.Prelude.{
  ℕ, zero, suc, ◌+◌, ◌-◌, ◌*◌, ◌^◌, min, Bool, not, ◌||◌, eqb, if◌then◌else◌,
}
use browseterm_device_agent.Effects.{Action, ok, err, Exc, other}

-- `min(max_delay_seconds, base_delay_seconds * (2 ** attempt))`
unfoldable pub retry_delay : (base_delay max_delay attempt : ℕ) → ℕ
retry_delay base_delay max_delay attempt = min max_delay (base_delay * 2 ^ attempt)

-- The arguments of `call_with_retry` that are not the call itself.
pub record Policy (S : Type 0) : Type 0 where
  pub is_retryable : Exc → Bool
  pub max_attempts : ℕ
  pub base_delay : ℕ
  pub max_delay : ℕ
  pub pause : ℕ → S → S

module _ {S A : Type 0} (p : Policy S) (fn : Action S A) where
  -- The `for` loop, from `attempt` on, with `left` rounds left.
  unfoldable pub retry_from : (attempt left : ℕ) → Action S A
  retry_from attempt zero s = (err (other "unreachable"), s)
  retry_from attempt (suc left) s =
      let (r, s') = fn s in
      elim r [
        | ok a ↦ (ok a, s')
        | err e ↦
            let again =
              retry_from (attempt + 1) left
                (p.pause (retry_delay p.base_delay p.max_delay attempt) s') in
            if eqb attempt (p.max_attempts - 1) || not (p.is_retryable e)
            then (err e, s')
            else again
      ]

  unfoldable pub call_with_retry : Action S A
  unfolding retry_from
  call_with_retry = retry_from 0 p.max_attempts
