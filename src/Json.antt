-- ===== src/Json.antt =====
-- Python values as the `json` module makes them, and what the agent does with them: `get`, `in`,
-- `[...]`, truth, `or`, iteration and slices. A JSON text is modelled by what `json.loads` makes of
-- it: it is empty, it is refused, or it is the text of a value.
pub mod Access
use browseterm_device_agent.Prelude.{
  ℕ, zero, suc, String, ◌≡◌, Bool, true, false, not, ◌||◌, Option, none, some, List, [], ◌∷◌, ◌==◌,
  eqb, if◌then◌else◌,
}

-- `negsuc n` is -(n + 1).
pub data ℤ : Type 0 where
  pos : ℕ → ℤ
  negsuc : ℕ → ℤ

-- Of a float the agent only tests whether it is zero; the text is its literal.
mutual
  pub data Json : Type 0 where
    null : Json
    bool : Bool → Json
    int : ℤ → Json
    float : (is_zero : Bool) → String → Json
    str : String → Json
    arr : Items → Json
    obj : Fields → Json

  pub data Items : Type 0 where
    nil : Items
    cons : Json → Items → Items

  pub data Fields : Type 0 where
    end : Fields
    field : String → Json → Fields → Fields

pub data JsonText : Type 0 where
  empty : JsonText
  invalid : JsonText
  doc : Json → JsonText

-- `json.loads`; `none` is a JSONDecodeError, which the empty text gives too.
abbrev pub loads : JsonText → Option Json
loads empty = none
loads invalid = none
loads (doc j) = some j

abbrev pub lookup_field : String → Fields → Option Json
lookup_field k end = none
lookup_field k (field j v fs) = if j == k then some v else lookup_field k fs

abbrev pub truthy : Json → Bool
truthy null = false
truthy (bool b) = b
truthy (int (pos zero)) = false
truthy (int (pos (suc n))) = true
truthy (int (negsuc n)) = true
truthy (float is_zero t) = not is_zero
truthy (str s) = not (s == "")
truthy (arr nil) = false
truthy (arr (cons x xs)) = true
truthy (obj end) = false
truthy (obj (field k v fs)) = true

-- `a or b`
abbrev pub or_else : Json → Json → Json
or_else a b = if truthy a then a else b

abbrev pub items : Items → List Json
items nil = []
items (cons x xs) = x ∷ items xs

-- Python's name of the type, as its error messages have it.
abbrev pub type_name : Json → String
type_name null = "NoneType"
type_name (bool b) = "bool"
type_name (int n) = "int"
type_name (float z t) = "float"
type_name (str s) = "str"
type_name (arr xs) = "list"
type_name (obj fs) = "dict"

-- A text that the agent sends or stores: a given one, `json.dumps` of a value, or `str` of a value
-- that is no text.
pub data Payload : Type 0 where
  plain : String → Payload
  dumped : Json → Payload
  shown : Json → Payload
