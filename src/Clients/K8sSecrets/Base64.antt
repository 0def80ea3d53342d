-- ===== src/Clients/K8sSecrets/Base64.antt =====
-- `base64.b64decode` of a text, as clients/k8s_secrets.py calls it: characters beyond the alphabet
-- are passed over, and what follows the padding is not read. A text is the list of its codes.
pub mod RoundTrip
use browseterm_device_agent.Prelude.{
  ℕ, zero, suc, ◌+◌, ◌-◌, ◌*◌, ◌/◌, ◌%◌, Bool, true, false, ◌&&◌, Option, none, some, List, [], ◌∷◌,
  leb, ltb, eqb, if◌then◌else◌,
}

-- The exceptions of the standard library on a text that is no base64.
pub data Base64Error : Type 0 where
  value_error binascii_error : Base64Error

pub data Decoded : Type 0 where
  bytes : List ℕ → Decoded
  refused : Base64Error → Decoded

-- Where the decoder is in a group of four characters, with the bits that are not in a byte yet. In
-- the middle of the group, `padded` says that one padding character was read.
pub data Quad : Type 0 where
  start : Quad
  after_one : (left : ℕ) → Quad
  after_two : (left : ℕ) (padded : Bool) → Quad
  after_three : (left : ℕ) → Quad

unfoldable pub sextet : ℕ → Option ℕ
sextet c =
    if leb b'A' c && leb c b'Z'
    then some (c - 65)
    else if leb b'a' c && leb c b'z'
    then some (c - 71)
    else if leb b'0' c && leb c b'9'
    then some (c + 4)
    else if eqb c b'+'
    then some 62
    else if eqb c b'/'
    then some 63
    else none

abbrev pub with_byte : ℕ → Decoded → Decoded
with_byte b (bytes bs) = bytes (b ∷ bs)
with_byte b (refused e) = refused e

unfoldable pub decode : Quad → List ℕ → Decoded
unfolding sextet
decode start [] = bytes []
decode (after_one left) [] = refused binascii_error
decode (after_two left padded) [] = refused binascii_error
decode (after_three left) [] = refused binascii_error
decode start (c ∷ cs) =
    let skip = decode start cs in elim (sextet c) [ some n ↦ decode (after_one n) cs | none ↦ skip ]
decode (after_one left) (c ∷ cs) =
    let skip = decode (after_one left) cs in
    elim (sextet c) [
      | some n ↦ with_byte (left * 4 + n / 16) (decode (after_two (n % 16) false) cs)
      | none ↦ skip
    ]
decode (after_two left padded) (c ∷ cs) =
    let skip = decode (after_two left padded) cs in
    let pad = if padded then bytes [] else decode (after_two left true) cs in
    elim (sextet c) [
      | some n ↦ with_byte (left * 16 + n / 4) (decode (after_three (n % 4)) cs)
      | none ↦ if eqb c b'=' then pad else skip
    ]
decode (after_three left) (c ∷ cs) =
    let skip = decode (after_three left) cs in
    elim (sextet c) [
      | some n ↦ with_byte (left * 64 + n) (decode start cs)
      | none ↦ if eqb c b'=' then bytes [] else skip
    ]

abbrev pub is_ascii : List ℕ → Bool
is_ascii [] = true
is_ascii (c ∷ cs) = ltb c 128 && is_ascii cs

unfoldable pub b64decode : List ℕ → Decoded
unfolding decode
b64decode s = if is_ascii s then decode start s else refused value_error
