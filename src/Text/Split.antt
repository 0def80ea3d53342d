-- ===== src/Text/Split.antt =====
-- `join` undoes `split`, and what the parts of a text with a suffix are.
use Prim.Native.Char.{Char, code}
use text.Mathlib.TextLemmas.{nil-append, cons-append, append_assoc}
use text.Mathlib.TextEquality.{Char-path}
use browseterm_device_agent.Prelude.{
  String, ◌≡◌, refl, ap, ◌∙◌, true, List, [], ◌∷◌, ◌<>◌, Bool-cases, inl, inr, eqb, arith,
}
use browseterm_device_agent.Text.{split, join, cons_head}

abbrev dash : Char
dash = "-"

eqb→dash : (c : Char) → eqb (code c) b'-' ≡ true → c ≡ dash
eqb→dash c h = Char-path c dash (ground arith)

join-cons_head :
    (c : String) (p : String) (ps : List String) → join (cons_head c (p ∷ ps)) ≡ c <> join (p ∷ ps)
unfolding join
join-cons_head c p [] = refl
join-cons_head c p (q ∷ ps) = append_assoc c p ("-" <> join (q ∷ ps))

-- A split has at least one part.
pub split-cons : (s : String) → (p : String) × (ps : List String) × (split s ≡ p ∷ ps)
unfolding split
split-cons String.[] = ("", [], refl)
split-cons (String.◌∷◌ c s) = elim (Bool-cases (eqb (code c) b'-')) [
  | inl d ↦ ("", split s, rw d)
  | inr n ↦ let (p, ps, e) = split-cons s in (String.◌∷◌ c "" <> p, ps, rw (n, e))
]

join-nil_cons :
    (ps : List String) (p : String) (qs : List String)
    → ps ≡ p ∷ qs
    → join ("" ∷ ps) ≡ "-" <> join ps
unfolding join
join-nil_cons ps p qs e = rw (e, nil-append)

join-cons_head_lem :
    (c : String) (ps : List String) (p : String) (qs : List String)
    → ps ≡ p ∷ qs
    → join (cons_head c ps) ≡ c <> join ps
join-cons_head_lem c ps p qs e = rw e (join-cons_head c p qs)

-- Splitting at the dashes and joining with dashes gives the text back.
pub join-split : (s : String) → join (split s) ≡ s
unfolding split
join-split String.[] = unfold join in refl
join-split (String.◌∷◌ c s) =
    let (p, ps, e) = split-cons s in
    elim (Bool-cases (eqb (code c) b'-')) [
      | inl d ↦ rw d (
          join-nil_cons (split s) p ps e
          ∙ (rw (join-split s, eqb→dash c d)
              (cons-append dash "" s ∙ ap (String.◌∷◌ dash) (nil-append s))))
      | inr n ↦ rw n (
          join-cons_head_lem _ (split s) p ps e
          ∙ (rw (join-split s) (cons-append c "" s ∙ ap (String.◌∷◌ c) (nil-append s))))
    ]
