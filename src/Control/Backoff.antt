-- ===== src/Control/Backoff.antt =====
-- control/backoff.py, with the schedule of config.py. A time is a number of milliseconds, and
-- `jitter` is RECONNECT_JITTER_FRACTION in thousandths, 200 where it is not set.
use browseterm_device_agent.Prelude.{
  ℕ, zero, suc, ◌+◌, ◌-◌, ◌*◌, ◌/◌, ◌≤◌, ◌≡◌, ◌⊎◌, inl, inr, List, [], ◌∷◌, min, length, arith,
}

-- RECONNECT_BACKOFF_SCHEDULE_SECONDS
abbrev pub schedule : List ℕ
schedule = 1000 ∷ 2000 ∷ 4000 ∷ 8000 ∷ 15000 ∷ 30000 ∷ []

abbrev pub entry : List ℕ → ℕ → ℕ
entry [] n = 0
entry (x ∷ xs) zero = x
entry (x ∷ xs) (suc n) = entry xs n

unfoldable pub base : (attempt : ℕ) → ℕ
base attempt = entry schedule (min attempt (length schedule - 1))

abbrev pub jitter_range : (jitter : ℕ) → ℕ → ℕ
jitter_range jitter b = b * jitter / 1000

-- `uniform r` is by how much `rng.uniform(-r, r)` is above `-r`. The subtraction on numbers stops
-- at 0, as `max(0.0, ...)` does.
unfoldable pub backoff_seconds : (jitter : ℕ) (uniform : ℕ → ℕ) (attempt : ℕ) → ℕ
unfolding base
backoff_seconds jitter uniform attempt =
    let b = base attempt in let r = jitter_range jitter b in b + uniform r - r

capped : (n : ℕ) → min (suc (suc (suc (suc (suc n))))) 5 ≡ 5
capped n = omega arith

-- The base delay is between one second and half a minute.
base-bounds : (attempt : ℕ) → (1000 ≤ base attempt) × (base attempt ≤ 30000)
unfolding base
base-bounds zero = (omega arith, omega arith)
base-bounds (suc zero) = (omega arith, omega arith)
base-bounds (suc (suc zero)) = (omega arith, omega arith)
base-bounds (suc (suc (suc zero))) = (omega arith, omega arith)
base-bounds (suc (suc (suc (suc zero)))) = (omega arith, omega arith)
base-bounds (suc (suc (suc (suc (suc n))))) = rw capped (omega arith, omega arith)

-- A draw stays within its range of the base delay.
drawn-near :
    (b jitter u : ℕ)
    → let r = jitter_range jitter b in
      u ≤ r + r
      → (1000 * b ≤ 1000 * (b + u - r) + jitter * b) × (1000 * (b + u - r) ≤ 1000 * b + jitter * b)
drawn-near b jitter u h = (grind arith, grind arith)

-- What is not taken off of a delay, and what is, are the whole of it.
parts : (b rest jitter : ℕ) → rest + jitter ≡ 1000 → b * rest + b * jitter ≡ 1000 * b
parts b rest jitter whole = grind (arith, scaled _ whole)
  where
    scaled : (n : ℕ) → n ≡ 1000 → b * n ≡ 1000 * b
    scaled n e = rw e omega arith

longer : (b rest : ℕ) → 1000 ≤ b → 1000 * rest ≤ b * rest
longer b rest h = grind arith

at_most : (jitter : ℕ) → (jitter ≤ 1000) ⊎ (1000 ≤ jitter)
at_most jitter = omega arith

near-low :
    (b jitter delay : ℕ) → 1000 ≤ b → 1000 * b ≤ 1000 * delay + jitter * b → 1000 - jitter ≤ delay
near-low b jitter delay h near = elim (at_most jitter) [
  | inl small ↦
      let p = parts b (1000 - jitter) jitter (omega arith) in
      let l = longer b (1000 - jitter) h in grind arith
  | inr large ↦ omega arith
]

near-high :
    (b jitter delay : ℕ)
    → b ≤ 30000
    → 1000 * delay ≤ 1000 * b + jitter * b
    → delay ≤ 30 * (1000 + jitter)
near-high b jitter delay h near = grind arith

-- If the drawn jitter is in its range, a delay is away from the base delay of its attempt by no
-- more than the fraction of it that is set, and so at least that much below one second and at
-- most that much above half a minute.
pub backoff_seconds-bounds :
    (jitter : ℕ) (uniform : ℕ → ℕ) (attempt : ℕ)
    → ((r : ℕ) → uniform r ≤ r + r)
    → let delay = backoff_seconds jitter uniform attempt in
      (1000 * base attempt ≤ 1000 * delay + jitter * base attempt)
      × (1000 * delay ≤ 1000 * base attempt + jitter * base attempt)
      × (1000 - jitter ≤ delay)
      × (delay ≤ 30 * (1000 + jitter))
unfolding backoff_seconds
backoff_seconds-bounds jitter uniform attempt drawn =
    let (low, high) = base-bounds attempt in
    let (above, below) =
      drawn-near (base attempt) jitter _ (drawn (jitter_range jitter (base attempt))) in
    (above, below, near-low _ jitter _ low above, near-high _ jitter _ high below)
