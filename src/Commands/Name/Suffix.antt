-- ===== src/Commands/Name/Suffix.antt =====
-- What commands/_util.py makes of the names that Container Maker gives.
use mathlib.Core.List.{append_assoc as concat_assoc}
use browseterm_device_agent.Prelude.{
  ℕ, String, ◌≡◌, refl, ◌∙◌, sym, Bool, true, false, ◌||◌, leb, List, [], ◌∷◌, ◌++◌, ◌<>◌, ◌==◌,
  length, length-append, arith,
}
use browseterm_device_agent.Text.{split, join, is_digit}
use browseterm_device_agent.Text.Split.{join-split}
use browseterm_device_agent.Text.Dashes.{
  split-dash, split-digits, get_last-append, drop_last-append,
}
use browseterm_device_agent.Commands.Name.{strip_container_maker_suffix}

module _ (beyond : ℕ → Bool) where
  -- The name of a pod.
  abbrev pod_name : (base digits : String) → String
  pod_name base digits = base <> ("-" <> ("pod" <> ("-" <> digits)))

  split-pod_name :
      (base digits : String)
      → is_digit beyond digits ≡ true
      → split (pod_name base digits) ≡ (split base ++ "pod" ∷ []) ++ digits ∷ []
  unfolding split
  split-pod_name base digits h =
      let last = split-digits beyond digits (ground (arith, h)) in
      split-dash base ("pod" <> ("-" <> digits))
      ∙ (rw (split-dash "pod" digits, last)
          (sym (concat_assoc (split base) ("pod" ∷ []) (digits ∷ []))))

  two : (parts : List String) (a b : String) → leb 2 (length ((parts ++ a ∷ []) ++ b ∷ [])) ≡ true
  two parts a b = rw (length-append, length-append) (ground arith)

  one : (parts : List String) (a : String) → leb 1 (length (parts ++ a ∷ [])) ≡ true
  one parts a = rw length-append (ground arith)

  -- A name whose parts end in these two.
  strip-number :
      (name : String) (parts : List String) (word digits : String)
      → split name ≡ (parts ++ word ∷ []) ++ digits ∷ []
      → is_digit beyond digits ≡ true
      → strip_container_maker_suffix beyond name ≡ join parts
  unfolding strip_container_maker_suffix
  strip-number name parts word digits e h =
      rw (e, get_last-append, h, two parts word digits, drop_last-append, drop_last-append) refl

  strip-word :
      (name : String) (parts : List String) (word : String)
      → split name ≡ parts ++ word ∷ []
      → is_digit beyond word ≡ false
      → (word == "pod" || (word == "service" || word == "ingress")) ≡ true
      → strip_container_maker_suffix beyond name ≡ join parts
  unfolding strip_container_maker_suffix
  strip-word name parts word e n w =
      rw (e, get_last-append, n, w, one parts word, drop_last-append) (ground arith)

  strip-suffix :
      (base word : String)
      → split word ≡ word ∷ []
      → is_digit beyond word ≡ false
      → (word == "pod" || (word == "service" || word == "ingress")) ≡ true
      → strip_container_maker_suffix beyond (base <> ("-" <> word)) ≡ base
  strip-suffix base word s n w =
      strip-word _ (split base) word (split-dash base word ∙ rw s refl) n w ∙ join-split base

  -- For any base, also one with dashes or a suffix of its own, and any digits: the names that
  -- Container Maker makes of the base, with -pod- and the digits or with -pod, -service or
  -- -ingress, are stripped back to the base.
  pub strip_container_maker_suffix-name :
      (base digits : String)
      → is_digit beyond digits ≡ true
      → (strip_container_maker_suffix beyond (pod_name base digits) ≡ base)
        × (strip_container_maker_suffix beyond (base <> "-pod") ≡ base)
        × (strip_container_maker_suffix beyond (base <> "-service") ≡ base)
        × (strip_container_maker_suffix beyond (base <> "-ingress") ≡ base)
  unfolding split
  strip_container_maker_suffix-name base digits h = (
    strip-number _ (split base) "pod" digits (split-pod_name base digits h) h ∙ join-split base,
    strip-suffix base "pod" refl refl refl,
    strip-suffix base "service" refl refl refl,
    strip-suffix base "ingress" refl refl refl,
  )
