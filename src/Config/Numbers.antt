-- ===== src/Config/Numbers.antt =====
-- Python's `int(text)` and `float(text)`, by which device_agent/config.py reads its numbers. `none` is
-- a ValueError.
use browseterm_device_agent.Prelude.{
  ℕ, zero, suc, ◌+◌, ◌-◌, ◌*◌, String, Bool, true, false, ◌&&◌, ◌||◌, Option, none, some, List, [],
  ◌∷◌, ◌++◌, map, length, leb, ltb, eqb, if◌then◌else◌,
}
use browseterm_device_agent.Text.{codes, lower}
use browseterm_device_agent.Json.{ℤ, pos, negsuc}

-- What Python's tables say of a character beyond ASCII: whether it is white space, and which decimal
-- digit it is.
pub record Unicode : Type 0 where
  pub is_space : ℕ → Bool
  pub decimal : ℕ → Option ℕ

-- Both functions first put ASCII in place of the white space and the digits beyond it. Any other
-- character becomes one that is refused.
abbrev digit_or_refused : Option ℕ → ℕ
digit_or_refused none = b'?'
digit_or_refused (some d) = b'0' + d

unfoldable pub to_ascii : Unicode → ℕ → ℕ
to_ascii u c =
    if ltb c 127 then c else if u.is_space c then b' ' else digit_or_refused (u.decimal c)

-- The white space that is taken off: not that of `str.strip`, which has four more.
abbrev pub is_blank : ℕ → Bool
is_blank c = eqb c b' ' || (leb 9 c && leb c 13)

abbrev pub is_digit : ℕ → Bool
is_digit c = leb b'0' c && leb c b'9'

abbrev pub is_empty : List ℕ → Bool
is_empty [] = true
is_empty (c ∷ s) = false

unfoldable pub trim_start : List ℕ → List ℕ
trim_start [] = []
trim_start (c ∷ s) = let rest = trim_start s in if is_blank c then rest else c ∷ s

unfoldable pub trim_end : List ℕ → List ℕ
trim_end [] = []
trim_end (c ∷ s) = let rest = trim_end s in if is_blank c && is_empty rest then [] else c ∷ rest

abbrev starts_with_digit : List ℕ → Bool
starts_with_digit [] = false
starts_with_digit (c ∷ s) = is_digit c

abbrev put : ℕ → Option (List ℕ) → Option (List ℕ)
put c none = none
put c (some s) = some (c ∷ s)

-- The text without its underscores, each of which must stand between two digits.
unfoldable pub drop_underscores : (after_digit : Bool) → List ℕ → Option (List ℕ)
drop_underscores after_digit [] = some []
drop_underscores after_digit (c ∷ s) =
    let rest = drop_underscores (is_digit c) s in
    if eqb c b'_' then if after_digit && starts_with_digit s then rest else none else put c rest

unfoldable pub prepare : Unicode → String → Option (List ℕ)
unfolding to_ascii trim_start trim_end drop_underscores
prepare u s = drop_underscores false (trim_end (trim_start (map (to_ascii u) (codes s))))

-- The number that digits spell behind `n`.
unfoldable pub read_digits : (n : ℕ) → List ℕ → Option ℕ
read_digits n [] = some n
read_digits n (c ∷ s) =
    let rest = read_digits (n * 10 + (c - b'0')) s in if is_digit c then rest else none

-- One digit at least, and no more than Python's limit for the conversion of a text.
unfoldable pub natural : List ℕ → Option ℕ
unfolding read_digits
natural [] = none
natural (c ∷ s) = if ltb 4300 (length (c ∷ s)) then none else read_digits 0 (c ∷ s)

abbrev pub negative : ℕ → ℤ
negative zero = pos zero
negative (suc n) = negsuc n

abbrev pub with_sign : (ℕ → ℤ) → Option ℕ → Option ℤ
with_sign sign none = none
with_sign sign (some n) = some (sign n)

unfoldable pub signed : List ℕ → Option ℤ
unfolding natural
signed [] = none
signed (c ∷ s) =
    if eqb c b'+'
    then with_sign pos (natural s)
    else if eqb c b'-'
    then with_sign negative (natural s)
    else with_sign pos (natural (c ∷ s))

abbrev pub and_read : {A B : Type 0} → Option A → (A → Option B) → Option B
and_read none f = none
and_read (some a) f = f a

-- `int(text)`
unfoldable pub int : Unicode → String → Option ℤ
unfolding prepare signed
int u s = and_read (prepare u s) signed

-- A float as its text has it: `finite negative digits exponent` is the double nearest to
-- digits * 10 ^ exponent, or its opposite.
pub data Float : Type 0 where
  finite : (is_negative : Bool) (digits : ℕ) (exponent : ℤ) → Float
  infinite : (is_negative : Bool) → Float
  nan : Float

abbrev minus : ℤ → ℕ → ℤ
minus (pos m) n = if leb n m then pos (m - n) else negsuc (n - m - 1)
minus (negsuc m) n = negsuc (m + n)

abbrev pub same_text : List ℕ → List ℕ → Bool
same_text [] [] = true
same_text (c ∷ s) (d ∷ t) = eqb c d && same_text s t
same_text s t = false

-- The digits that a text starts with, and what comes after them.
unfoldable pub span_digits : List ℕ → List ℕ × List ℕ
span_digits [] = ([], [])
span_digits (c ∷ s) =
    let (ds, rest) = span_digits s in if is_digit c then (c ∷ ds, rest) else ([], c ∷ s)

abbrev pub after_point : List ℕ → List ℕ × List ℕ
after_point [] = ([], [])
after_point (c ∷ s) = if eqb c b'.' then span_digits s else ([], c ∷ s)

-- The digits of the exponent have no limit of their own.
abbrev pub exponent_digits : (ℕ → ℤ) → List ℕ → Option ℤ
exponent_digits sign [] = none
exponent_digits sign (c ∷ s) = with_sign sign (read_digits 0 (c ∷ s))

abbrev pub signed_exponent : List ℕ → Option ℤ
signed_exponent [] = none
signed_exponent (c ∷ s) =
    if eqb c b'+'
    then exponent_digits pos s
    else if eqb c b'-'
    then exponent_digits negative s
    else exponent_digits pos (c ∷ s)

abbrev pub exponent : List ℕ → Option ℤ
exponent [] = some (pos 0)
exponent (c ∷ s) = if eqb c b'e' || eqb c b'E' then signed_exponent s else none

abbrev pub decimal_of : (is_negative : Bool) → (whole fraction rest : List ℕ) → Option Float
decimal_of is_negative whole fraction rest =
    if is_empty (whole ++ fraction)
    then none
    else and_read (exponent rest) λ e.
      and_read (read_digits 0 (whole ++ fraction))
        λ digits. some (finite is_negative digits (minus e (length fraction)))

unfoldable pub unsigned_float : (is_negative : Bool) → List ℕ → Option Float
unfolding span_digits read_digits
unsigned_float is_negative s =
    let word = lower s in
    if same_text word (codes "inf") || same_text word (codes "infinity")
    then some (infinite is_negative)
    else if same_text word (codes "nan")
    then some nan
    else let (whole, rest) = span_digits s in
      let (fraction, end_) = after_point rest in decimal_of is_negative whole fraction end_

unfoldable pub signed_float : List ℕ → Option Float
unfolding unsigned_float
signed_float [] = none
signed_float (c ∷ s) =
    if eqb c b'+'
    then unsigned_float false s
    else if eqb c b'-'
    then unsigned_float true s
    else unsigned_float false (c ∷ s)

-- `float(text)`
unfoldable pub float : Unicode → String → Option Float
unfolding prepare signed_float
float u s = and_read (prepare u s) signed_float
