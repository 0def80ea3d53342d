-- ===== src/Text.antt =====
-- What the agent does with texts: `split` and `join` at dashes, `isdigit`, `lower` with `in`, and
-- slices. A slice counts characters, as Python does.
pub mod Split
pub mod Dashes
use Prim.Native.Char.{code}
use Prim.Native.String
use browseterm_device_agent.Prelude.{
  ℕ, zero, suc, ◌+◌, ◌/◌, ◌%◌, String, Bool, true, false, not, ◌&&◌, ◌||◌, List, [], ◌∷◌, leb, ltb,
  eqb, ◌==◌, ◌<>◌, if◌then◌else◌,
}

abbrev pub codes : String → List ℕ
codes String.[] = []
codes (String.◌∷◌ c s) = code c ∷ codes s

-- `s[:n]`
abbrev pub take_chars : ℕ → String → String
take_chars zero s = ""
take_chars (suc n) String.[] = ""
take_chars (suc n) (String.◌∷◌ c s) = String.◌∷◌ c (take_chars n s)

-- `s.lower()`, up to the letters beyond ASCII: what it is searched for is ASCII, and no letter
-- beyond ASCII has a lower case among the letters of the markers.
abbrev pub to_lower : ℕ → ℕ
to_lower c = if leb b'A' c && leb c b'Z' then c + 32 else c

abbrev pub lower : List ℕ → List ℕ
lower [] = []
lower (c ∷ s) = to_lower c ∷ lower s

abbrev pub is_prefix : List ℕ → List ℕ → Bool
is_prefix [] s = true
is_prefix (c ∷ p) [] = false
is_prefix (c ∷ p) (d ∷ s) = eqb c d && is_prefix p s

-- `p in s`
abbrev pub contains : List ℕ → List ℕ → Bool
contains p [] = is_prefix p []
contains p (c ∷ s) = is_prefix p (c ∷ s) || contains p s

-- `s.split("-")`
abbrev cons_head : String → List String → List String
cons_head c [] = c ∷ []
cons_head c (p ∷ ps) = (c <> p) ∷ ps

unfoldable pub split : String → List String
split String.[] = "" ∷ []
split (String.◌∷◌ c s) =
    if eqb (code c) b'-' then "" ∷ split s else cons_head (String.◌∷◌ c "") (split s)

-- `"-".join(parts)`
unfoldable pub join : List String → String
join [] = ""
join (p ∷ []) = p
join (p ∷ q ∷ ps) = p <> ("-" <> join (q ∷ ps))

-- `parts[-1]` and `parts[:-1]`, of a list that is not empty
abbrev pub get_last : List String → String
get_last [] = ""
get_last (p ∷ []) = p
get_last (p ∷ q ∷ ps) = get_last (q ∷ ps)

abbrev pub drop_last : List String → List String
drop_last [] = []
drop_last (p ∷ []) = []
drop_last (p ∷ q ∷ ps) = p ∷ drop_last (q ∷ ps)

-- `s.isdigit()`. The digits beyond ASCII are those of Python's Unicode tables.
abbrev pub all_digits : (ℕ → Bool) → String → Bool
all_digits beyond String.[] = true
all_digits beyond (String.◌∷◌ c s) =
    (if ltb (code c) 128 then leb b'0' (code c) && leb (code c) b'9' else beyond (code c))
    && all_digits beyond s

abbrev pub is_digit : (ℕ → Bool) → String → Bool
is_digit beyond s = not (s == "") && all_digits beyond s

unfoldable pub digit_text : ℕ → String
digit_text n =
    if eqb n 0
    then "0"
    else if eqb n 1
    then "1"
    else if eqb n 2
    then "2"
    else if eqb n 3
    then "3"
    else if eqb n 4
    then "4"
    else if eqb n 5
    then "5"
    else if eqb n 6
    then "6"
    else if eqb n 7
    then "7"
    else if eqb n 8
    then "8"
    else "9"

-- `str(n)`, with more fuel than digits.
unfoldable pub show_from : (fuel n : ℕ) → String
unfolding digit_text
show_from zero n = ""
show_from (suc fuel) n =
    let rest = show_from fuel (n / 10) in
    if ltb n 10 then digit_text n else rest <> digit_text (n % 10)

unfoldable pub show : ℕ → String
unfolding show_from
show n = show_from (suc n) n
