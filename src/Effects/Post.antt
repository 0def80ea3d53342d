-- ===== src/Effects/Post.antt =====
-- Postconditions of calls that may raise: nothing is said of an exception.
use browseterm_device_agent.Prelude.{String, ◌≡◌, refl, Bool, true, false, if◌then◌else◌}
use browseterm_device_agent.Effects.{Action, Result, ok, err, Exc, maker_error, handle, ◌>>=◌}
use browseterm_device_agent.Commands.Env.{on_maker_error}

pub data Post {A : Type 0} (P : A → Type 0) : Result A → Type 0 where
  returns : {a : A} → P a → Post P (ok a)
  raises : {e : Exc} → Post P (err e)

pub of_ok : {A : Type 0} {P : A → Type 0} {a : A} → Post P (ok a) → P a
of_ok (returns h) = h

pub Post-of : {A : Type 0} {P : A → Type 0} (r : Result A) → ((a : A) → r ≡ ok a → P a) → Post P r
Post-of (ok a) h = returns (h a refl)
Post-of (err e) h = raises

-- Whatever state the call is made in.
abbrev pub Gives : {S A : Type 0} → (A → Type 0) → Action S A → Type 0
Gives {S} P m = (s : S) → Post P (m s).0

abbrev pub Anything : {A : Type 0} → A → Type 0
Anything a = Unit

pub Post-any : {A : Type 0} (r : Result A) → Post Anything r
Post-any (ok a) = returns tt
Post-any (err e) = raises

module _ {S A : Type 0} {P : A → Type 0} where
  pub Gives-if :
      (m n : Action S A) (b : Bool)
      → (b ≡ true → Gives P m)
      → (b ≡ false → Gives P n)
      → Gives P (if b then m else n)
  Gives-if m n true h k = h refl
  Gives-if m n false h k = k refl

  pub Gives-on_maker_error :
      (f : String → Action S A)
      → ((message : String) → Gives P (f message))
      → (e : Exc) → Gives P (on_maker_error f e)
  Gives-on_maker_error f h (maker_error message) s = h message s
  Gives-on_maker_error f h _ s = raises

module _ {S A B : Type 0} {Q : A → Type 0} {P : B → Type 0} where
  bound :
      (x : Result A × S) (f : A → Action S B)
      → Post Q x.0
      → ((a : A) → Q a → Gives P (f a))
      → Post P (((λ (s : S). x) >>= f) x.1).0
  bound (ok a, s) f (returns h) k = k a h s
  bound (err e, s) f h k = raises

  handled :
      (x : Result A × S) (f : A → Action S B) (g : Exc → Action S B)
      → Post Q x.0
      → ((a : A) → Q a → Gives P (f a))
      → ((e : Exc) → Gives P (g e))
      → Post P (handle (λ (s : S). x) f g x.1).0
  handled (ok a, s) f g (returns h) k l = k a h s
  handled (err e, s) f g h k l = l e s

  pub Gives-bind :
      (m : Action S A) (f : A → Action S B)
      → Gives Q m
      → ((a : A) → Q a → Gives P (f a))
      → Gives P (m >>= f)
  Gives-bind m f h k s = bound (m s) f (h s) k

  pub Gives-handle :
      (m : Action S A) (f : A → Action S B) (g : Exc → Action S B)
      → Gives Q m
      → ((a : A) → Q a → Gives P (f a))
      → ((e : Exc) → Gives P (g e))
      → Gives P (handle m f g)
  Gives-handle m f g h k l s = handled (m s) f g (h s) k l
