-- ===== src/Effects/Ends.antt =====
-- Calls that come to an end: the state they are made in does not matter.
use browseterm_device_agent.Prelude.{◌≢◌, refl, arith, inl, inr}
use browseterm_device_agent.Effects.{
  Action, Result, ok, err, Exc, stuck, and_then, handle, ◌>>=◌, Result-cases,
}

-- A value that can be read off without a loop.
abbrev pub IsDone : {A : Type 0} → Result A → Type 0
IsDone r = r ≢ err stuck

abbrev pub HasEnd : {S A : Type 0} → Action S A → Type 0
HasEnd {S} m = (s : S) → (m s).0 ≢ err stuck

pub and_then-IsDone :
    {A B : Type 0} (r : Result A) (f : A → Result B)
    → IsDone r
    → ((a : A) → IsDone (f a))
    → IsDone (and_then r f)
and_then-IsDone (ok a) f h k = k a
and_then-IsDone (err e) f h k = λ s. h (cc)

module _ {S A B : Type 0} (m : Action S A) (f : A → Action S B) (h : HasEnd m)
    (k : (a : A) → HasEnd (f a)) where
  pub bind-HasEnd : HasEnd (m >>= f)
  bind-HasEnd s = elim (Result-cases (m s).0) [
    | inl (a, e) ↦ ground (arith, k a (m s).1)
    | inr (x, e) ↦ ground (arith, h s)
  ]

  pub handle-HasEnd :
      (g : Exc → Action S B) → ((e : Exc) → e ≢ stuck → HasEnd (g e)) → HasEnd (handle m f g)
  handle-HasEnd g rescued s = elim (Result-cases (m s).0) [
    | inl (a, e) ↦ ground (arith, k a (m s).1)
    | inr (x, e) ↦ ground (arith, rescued x (λ same. h s (rw (e, same) refl)) (m s).1)
  ]
