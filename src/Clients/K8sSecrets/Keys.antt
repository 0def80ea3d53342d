-- ===== src/Clients/K8sSecrets/Keys.antt =====
-- The keys of the cache of clients/k8s_secrets.py tell secrets apart: the name of a namespace has no
-- slash.
use Prim.Native.Char.{code}
use text.Mathlib.TextLemmas.{nil-append, cons-append}
use browseterm_device_agent.Prelude.{
  String, ◌≡◌, refl, ◌∙◌, ap, sym, Bool, false, ◌||◌, ◌<>◌, eqb, arith, if◌then◌else◌,
}
use browseterm_device_agent.Clients.K8sSecrets.{cache_key}

abbrev pub has_slash : String → Bool
has_slash String.[] = false
has_slash (String.◌∷◌ c s) = eqb (code c) b'/' || has_slash s

-- What stands before the first slash of a text, and after it.
abbrev before : String → String
before String.[] = ""
before (String.◌∷◌ c s) = let rest = before s in if eqb (code c) b'/' then "" else String.◌∷◌ c rest

abbrev after : String → String
after String.[] = ""
after (String.◌∷◌ c s) = let rest = after s in if eqb (code c) b'/' then s else rest

slash : (name : String) → ("" <> ("/" <> name)) ≡ String.◌∷◌ "/" name
slash name = rw (nil-append, cons-append, nil-append) refl

module _ (name : String) where
  before-cache_key :
      (namespace : String)
      → has_slash namespace ≡ false
      → before (cache_key name namespace) ≡ namespace
  before-cache_key String.[] h = rw (slash name) refl
  before-cache_key (String.◌∷◌ c s) h =
      let letter : eqb (code c) b'/' ≡ false = ground (arith, h) in
      rw (cons-append c s ("/" <> name), letter)
        (ap (String.◌∷◌ c) (before-cache_key s (ground (arith, h))))

  after-cache_key :
      (namespace : String) → has_slash namespace ≡ false → after (cache_key name namespace) ≡ name
  after-cache_key String.[] h = rw (slash name) refl
  after-cache_key (String.◌∷◌ c s) h =
      let letter : eqb (code c) b'/' ≡ false = ground (arith, h) in
      rw (cons-append c s ("/" <> name), letter) (after-cache_key s (ground (arith, h)))

-- Two secrets of one key are the same.
pub cache_key-inj :
    (name namespace other_name other : String)
    → has_slash namespace ≡ false
    → has_slash other ≡ false
    → cache_key name namespace ≡ cache_key other_name other
    → (name ≡ other_name) × (namespace ≡ other)
cache_key-inj name namespace other_name other h k e = (
  sym (after-cache_key name namespace h) ∙ ap after e ∙ after-cache_key other_name other k,
  sym (before-cache_key name namespace h) ∙ ap before e ∙ before-cache_key other_name other k,
)
