-- ===== src/Clients/K8sSecrets/Base64/RoundTrip.antt =====
-- `base64.b64decode` undoes base64 as RFC 4648 has it, with padding, which is how Kubernetes gives
-- the values of a secret.
use browseterm_device_agent.Prelude.{
  ℕ, ◌+◌, ◌-◌, ◌*◌, ◌/◌, ◌%◌, ◌<◌, ◌≡◌, refl, ap, true, false, some, List, [], ◌∷◌, All, arith, ltb,
  eqb, if◌then◌else◌,
}
use browseterm_device_agent.Clients.K8sSecrets.Base64.{
  bytes, start, after_one, after_two, after_three, sextet, with_byte, decode, is_ascii, b64decode,
}

-- The character of a number below 64.
unfoldable pub letter : ℕ → ℕ
letter n =
    if ltb n 26
    then n + 65
    else if ltb n 52
    then n + 71
    else if ltb n 62
    then n - 4
    else if eqb n 62
    then 43
    else 47

unfoldable pub encode : List ℕ → List ℕ
unfolding letter
encode [] = []
encode (a ∷ []) = letter (a / 4) ∷ letter (a % 4 * 16) ∷ b'=' ∷ b'=' ∷ []
encode (a ∷ b ∷ []) =
    letter (a / 4) ∷ letter (a % 4 * 16 + b / 16) ∷ letter (b % 16 * 4) ∷ b'=' ∷ []
encode (a ∷ b ∷ c ∷ rest) =
    letter (a / 4)
    ∷ letter (a % 4 * 16 + b / 16)
    ∷ letter (b % 16 * 4 + c / 64)
    ∷ letter (c % 64)
    ∷ encode rest

abbrev pub AreBytes : List ℕ → Type 0
AreBytes bs = All (λ b. b < 256) bs

sextet-letter : (n : ℕ) → n < 64 → sextet (letter n) ≡ some n
unfolding sextet letter
sextet-letter n h = ground arith

letter-ascii : (n : ℕ) → n < 64 → ltb (letter n) 128 ≡ true
unfolding letter
letter-ascii n h = ground arith

decode-one : (n : ℕ) (cs : List ℕ) → n < 64 → decode start (letter n ∷ cs) ≡ decode (after_one n) cs
unfolding decode
decode-one n cs h = ground (arith, sextet-letter n h)

decode-two :
    (left n : ℕ) (cs : List ℕ)
    → n < 64
    → decode (after_one left) (letter n ∷ cs)
      ≡ with_byte (left * 4 + n / 16) (decode (after_two (n % 16) false) cs)
unfolding decode
decode-two left n cs h = ground (arith, sextet-letter n h)

decode-three :
    (left n : ℕ) (cs : List ℕ)
    → n < 64
    → decode (after_two left false) (letter n ∷ cs)
      ≡ with_byte (left * 16 + n / 4) (decode (after_three (n % 4)) cs)
unfolding decode
decode-three left n cs h = ground (arith, sextet-letter n h)

decode-four :
    (left n : ℕ) (cs : List ℕ)
    → n < 64
    → decode (after_three left) (letter n ∷ cs) ≡ with_byte (left * 64 + n) (decode start cs)
unfolding decode
decode-four left n cs h = ground (arith, sextet-letter n h)

-- Padding ends the text.
decode-padding : (left : ℕ) → decode (after_two left false) (b'=' ∷ b'=' ∷ []) ≡ bytes []
unfolding decode sextet
decode-padding left = refl

decode-padding_three : (left : ℕ) → decode (after_three left) (b'=' ∷ []) ≡ bytes []
unfolding decode sextet
decode-padding_three left = refl

first_alone : (a : ℕ) → a < 256 → a / 4 * 4 + a % 4 * 16 / 16 ≡ a
first_alone a h = omega arith

second_alone : (y b : ℕ) → b < 256 → (y * 16 + b / 16) % 16 * 16 + b % 16 * 4 / 4 ≡ b
second_alone y b h = omega arith

first_byte : (a x : ℕ) → a < 256 → x < 16 → a / 4 * 4 + (a % 4 * 16 + x) / 16 ≡ a
first_byte a x h k = omega arith

second_byte : (y b x : ℕ) → b < 256 → x < 4 → (y * 16 + b / 16) % 16 * 16 + (b % 16 * 4 + x) / 4 ≡ b
second_byte y b x h k = omega arith

third_byte : (y c : ℕ) → c < 256 → (y * 4 + c / 64) % 4 * 64 + c % 64 ≡ c
third_byte y c h = omega arith

decode-encode : (bs : List ℕ) → AreBytes bs → decode start (encode bs) ≡ bytes bs
unfolding encode
decode-encode [] h = unfold decode in refl
decode-encode (a ∷ []) (ha, h) =
    rw
      (
        decode-one (a / 4) _ (omega arith),
        decode-two (a / 4) (a % 4 * 16) _ (omega arith),
        decode-padding,
      )
      (ap (λ b. bytes (b ∷ [])) (first_alone a ha))
decode-encode (a ∷ b ∷ []) (ha, (hb, h)) =
    rw
      (
        decode-one (a / 4) _ (omega arith),
        decode-two (a / 4) (a % 4 * 16 + b / 16) _ (omega arith),
        decode-three _ (b % 16 * 4) _ (omega arith),
        decode-padding_three,
        first_byte a (b / 16) ha (omega arith),
      )
      (ap (λ x. bytes (a ∷ x ∷ [])) (second_alone (a % 4) b hb))
decode-encode (a ∷ b ∷ c ∷ rest) (ha, (hb, (hc, h))) =
    rw
      (
        decode-one (a / 4) _ (omega arith),
        decode-two (a / 4) (a % 4 * 16 + b / 16) _ (omega arith),
        decode-three _ (b % 16 * 4 + c / 64) _ (omega arith),
        decode-four _ (c % 64) _ (omega arith),
        decode-encode rest h,
        first_byte a (b / 16) ha (omega arith),
        second_byte (a % 4) b (c / 64) hb (omega arith),
        third_byte (b % 16) c hc,
      )
      refl

encode-ascii : (bs : List ℕ) → AreBytes bs → is_ascii (encode bs) ≡ true
unfolding encode
encode-ascii [] h = refl
encode-ascii (a ∷ []) (ha, h) =
    rw (letter-ascii (a / 4) (omega arith), letter-ascii (a % 4 * 16) (omega arith)) refl
encode-ascii (a ∷ b ∷ []) (ha, (hb, h)) =
    rw
      (
        letter-ascii (a / 4) (omega arith),
        letter-ascii (a % 4 * 16 + b / 16) (omega arith),
        letter-ascii (b % 16 * 4) (omega arith),
      )
      refl
encode-ascii (a ∷ b ∷ c ∷ rest) (ha, (hb, (hc, h))) =
    rw
      (
        letter-ascii (a / 4) (omega arith),
        letter-ascii (a % 4 * 16 + b / 16) (omega arith),
        letter-ascii (b % 16 * 4 + c / 64) (omega arith),
        letter-ascii (c % 64) (omega arith),
      )
      (encode-ascii rest h)

pub b64decode-encode : (bs : List ℕ) → AreBytes bs → b64decode (encode bs) ≡ bytes bs
unfolding b64decode
b64decode-encode bs h = rw (encode-ascii bs h) (decode-encode bs h)
