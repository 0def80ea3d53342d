-- ===== src/Config/RoundTrip.antt =====
-- `int` reads what `str` prints.
use text.Mathlib.TextLemmas.{nil-append, cons-append}
use Prim.Native.Char.{code}
use browseterm_device_agent.Prelude.{
  ℕ, zero, suc, ◌+◌, ◌-◌, ◌*◌, ◌/◌, ◌%◌, ◌<◌, ◌≤◌, String, ◌≡◌, refl, ◌∙◌, ap, Bool, Bool-cases,
  inl, inr, true, false, some, List, [], ◌∷◌, ◌++◌, ◌<>◌, map, length, All, All-append,
  length-append, arith, ltb,
}
use browseterm_device_agent.Text.{codes, digit_text, show_from, show}
use browseterm_device_agent.Json.{pos}
use browseterm_device_agent.Config.Numbers.{
  Unicode, to_ascii, is_digit, trim_start, trim_end, drop_underscores, prepare, read_digits,
  natural, signed, int,
}

abbrev IsDigit : ℕ → Type 0
IsDigit c = is_digit c ≡ true

codes-append : (s t : String) → codes (s <> t) ≡ codes s ++ codes t
codes-append String.[] t = ap codes (nil-append t)
codes-append (String.◌∷◌ c s) t =
    ap codes (cons-append c s t) ∙ ap (λ l. code c ∷ l) (codes-append s t)

digit_text-code : (n : ℕ) → n < 10 → codes (digit_text n) ≡ (b'0' + n) ∷ []
unfolding digit_text
digit_text-code zero h = refl
digit_text-code (suc zero) h = refl
digit_text-code (suc (suc zero)) h = refl
digit_text-code (suc (suc (suc zero))) h = refl
digit_text-code (suc (suc (suc (suc zero)))) h = refl
digit_text-code (suc (suc (suc (suc (suc zero))))) h = refl
digit_text-code (suc (suc (suc (suc (suc (suc zero)))))) h = refl
digit_text-code (suc (suc (suc (suc (suc (suc (suc zero))))))) h = refl
digit_text-code (suc (suc (suc (suc (suc (suc (suc (suc zero)))))))) h = refl
digit_text-code (suc (suc (suc (suc (suc (suc (suc (suc (suc zero))))))))) h = refl
digit_text-code (suc (suc (suc (suc (suc (suc (suc (suc (suc (suc n)))))))))) h =
    absurd (omega arith)

-- texts of digits are left as they are
to_ascii-digits : (u : Unicode) (s : List ℕ) → All IsDigit s → map (to_ascii u) s ≡ s
unfolding to_ascii
to_ascii-digits u [] h = refl
to_ascii-digits u (c ∷ s) (hc, hs) = ground (arith, to_ascii-digits u s hs)

trim_end-digits : (s : List ℕ) → All IsDigit s → trim_end s ≡ s
unfolding trim_end
trim_end-digits [] h = refl
trim_end-digits (c ∷ s) (hc, hs) = ground (arith, trim_end-digits s hs)

trim_start-digits : (s : List ℕ) → All IsDigit s → trim_start s ≡ s
unfolding trim_start
trim_start-digits [] h = refl
trim_start-digits (c ∷ s) (hc, hs) = ground arith

drop_underscores-digits : (s : List ℕ) (b : Bool) → All IsDigit s → drop_underscores b s ≡ some s
unfolding drop_underscores
drop_underscores-digits [] b h = refl
drop_underscores-digits (c ∷ s) b (hc, hs) = ground (arith, drop_underscores-digits s true hs)

prepare-digits : (u : Unicode) (s : String) → All IsDigit (codes s) → prepare u s ≡ some (codes s)
unfolding prepare
prepare-digits u s h =
    rw (to_ascii-digits u (codes s) h, trim_start-digits (codes s) h, trim_end-digits (codes s) h)
      (drop_underscores-digits (codes s) false h)

-- one more digit
read_digits-snoc :
    (s : List ℕ) (k m d : ℕ)
    → d < 10
    → read_digits k s ≡ some m
    → read_digits k (s ++ (b'0' + d) ∷ []) ≡ some (m * 10 + d)
unfolding read_digits
read_digits-snoc [] k m d h e = ground arith
read_digits-snoc (c ∷ s) k m d h e = ground (arith, read_digits-snoc s (k * 10 + (c - b'0')) m d h)

record Spells (s : List ℕ) (n : ℕ) : Type 0 where
  all : All IsDigit s
  nonempty : 0 < length s
  reads : read_digits 0 s ≡ some n

last-Spells :
    (s : List ℕ) (m d : ℕ) → d < 10 → Spells s m → Spells (s ++ (b'0' + d) ∷ []) (m * 10 + d)
last-Spells s m d h r = record {
  all = All-append IsDigit s _ r.all (ground arith, tt);
  nonempty = rw length-append (omega arith);
  reads = read_digits-snoc s 0 m d h r.reads;
}

one-Spells : (n : ℕ) → n < 10 → Spells ((b'0' + n) ∷ []) n
unfolding read_digits
one-Spells n h = record { all = (ground arith, tt); nonempty = omega arith; reads = ground arith }

show_from-small : (fuel n : ℕ) → ltb n 10 ≡ true → show_from (suc fuel) n ≡ digit_text n
unfolding show_from
show_from-small fuel n h = rw h refl

show_from-big :
    (fuel n : ℕ)
    → ltb n 10 ≡ false
    → show_from (suc fuel) n ≡ show_from fuel (n / 10) <> digit_text (n % 10)
unfolding show_from
show_from-big fuel n h = rw h refl

show_from-Spells : (fuel n : ℕ) → n < fuel → Spells (codes (show_from fuel n)) n
show_from-Spells zero n h = absurd (omega arith)
show_from-Spells (suc fuel) n h = elim (Bool-cases (ltb n 10)) [
  | inl small ↦
      rw (show_from-small fuel n small, digit_text-code n (ground arith))
        (one-Spells n (ground arith))
  | inr big ↦
      let whole : (n / 10) * 10 + n % 10 ≡ n = omega arith in
      rw (show_from-big fuel n big, codes-append, digit_text-code (n % 10) (omega arith))
        (rw whole at (
          last-Spells _ (n / 10) (n % 10) (omega arith)
            (show_from-Spells fuel (n / 10) (ground arith))))
]

show-Spells : (n : ℕ) → Spells (codes (show n)) n
unfolding show
show-Spells n = show_from-Spells (suc n) n (omega arith)

signed-Spells : (s : List ℕ) (n : ℕ) → Spells s n → length s ≤ 4300 → signed s ≡ some (pos n)
unfolding signed natural
signed-Spells [] n r l = absurd (omega (arith, r.nonempty))
signed-Spells (c ∷ s) n r l = ground (arith, r.reads, r.all.0)

-- A number of no more than 4300 digits is read back from its decimal text.
pub int-show :
    (u : Unicode) (n : ℕ) → length (codes (show n)) ≤ 4300 → int u (show n) ≡ some (pos n)
unfolding int
int-show u n h =
    rw (prepare-digits u (show n) (show-Spells n).all)
      (signed-Spells (codes (show n)) n (show-Spells n) h)
