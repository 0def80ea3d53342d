-- ===== src/Text/Dashes.antt =====
-- What a text with a dash is split into.
use Prim.Native.Char.{code}
use text.Mathlib.TextLemmas.{nil-append, cons-append}
use browseterm_device_agent.Prelude.{
  ℕ, String, ◌≡◌, refl, ◌∙◌, ap, Bool, true, false, List, [], ◌∷◌, ◌++◌, ◌<>◌, arith, inl, inr,
  Bool-cases, eqb,
}
use browseterm_device_agent.Text.{split, cons_head, get_last, drop_last, all_digits}
use browseterm_device_agent.Text.Split.{split-cons}

cons_head-append :
    (c : String) (ps qs : List String) (p : String) (rest : List String)
    → ps ≡ p ∷ rest
    → cons_head c (ps ++ qs) ≡ cons_head c ps ++ qs
cons_head-append c ps qs p rest e = rw e refl

split-nil_dash : (t : String) → split ("" <> ("-" <> t)) ≡ "" ∷ split t
unfolding split
split-nil_dash t = rw (nil-append, cons-append, nil-append) refl

-- A text is split at a dash that is put between two.
pub split-dash : (s t : String) → split (s <> ("-" <> t)) ≡ split s ++ split t
unfolding split
split-dash String.[] t = split-nil_dash t
split-dash (String.◌∷◌ c s) t =
    let (p, ps, e) = split-cons s in
    let rest = split-dash s t in
    rw (cons-append c s ("-" <> t)) (elim (Bool-cases (eqb (code c) b'-')) [
      | inl d ↦ rw d (ap (λ l. "" ∷ l) rest)
      | inr n ↦ rw (n, rest) (cons_head-append (String.◌∷◌ c "") (split s) (split t) p ps e)
    ])

-- No digit is a dash.
pub split-digits : (beyond : ℕ → Bool) (s : String) → all_digits beyond s ≡ true → split s ≡ s ∷ []
unfolding split
split-digits beyond String.[] h = refl
split-digits beyond (String.◌∷◌ c s) h =
    let rest = split-digits beyond s (ground (arith, h)) in
    let letter : eqb (code c) b'-' ≡ false = ground (arith, h) in
    rw (letter, rest) (ap (λ l. l ∷ []) (cons-append c "" s ∙ ap (String.◌∷◌ c) (nil-append s)))

pub get_last-append : (xs : List String) (y : String) → get_last (xs ++ y ∷ []) ≡ y
get_last-append [] y = refl
get_last-append (x ∷ []) y = refl
get_last-append (x ∷ z ∷ xs) y = get_last-append (z ∷ xs) y

pub drop_last-append : (xs : List String) (y : String) → drop_last (xs ++ y ∷ []) ≡ xs
drop_last-append [] y = refl
drop_last-append (x ∷ []) y = refl
drop_last-append (x ∷ z ∷ xs) y = ap (λ l. x ∷ l) (drop_last-append (z ∷ xs) y)
