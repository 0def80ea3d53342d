-- ===== src/Json/Access.antt =====
-- `get`, `in`, `[...]`, iteration and slices on a value that need not be of the right type: the
-- wrong type is a TypeError or an AttributeError, with Python's message.
use browseterm_device_agent.Prelude.{
  ℕ, String, Bool, true, false, ◌||◌, Option, none, some, List, [], ◌∷◌, ◌<>◌, ◌==◌,
}
use browseterm_device_agent.Text.{codes, contains, take_chars}
use browseterm_device_agent.Json.{
  Json, str, arr, obj, Items, nil, cons, Fields, end, field, lookup_field, items, type_name,
}
use browseterm_device_agent.Effects.{Result, ok, err, other}

abbrev or_default : Option Json → Json → Json
or_default none d = d
or_default (some v) d = v

-- `j.get(k, d)`; with no `d` it is `None`
unfoldable pub get : Json → String → Json → Result Json
get (obj fs) k d = ok (or_default (lookup_field k fs) d)
get j k d = err (other ("'" <> (type_name j <> "' object has no attribute 'get'")))

abbrev has_text : String → Items → Bool
has_text k nil = false
has_text k (cons (str s) xs) = s == k || has_text k xs
has_text k (cons x xs) = has_text k xs

abbrev is_some : Option Json → Bool
is_some none = false
is_some (some v) = true

-- `k in j`
unfoldable pub has_key : Json → String → Result Bool
has_key (obj fs) k = ok (is_some (lookup_field k fs))
has_key (arr xs) k = ok (has_text k xs)
has_key (str s) k = ok (contains (codes k) (codes s))
has_key j k = err (other ("argument of type '" <> (type_name j <> "' is not iterable")))

abbrev pub or_key_error : Option Json → String → Result Json
or_key_error none k = err (other ("'" <> (k <> "'")))
or_key_error (some v) k = ok v

-- `j[k]`
unfoldable pub index : Json → String → Result Json
index (obj fs) k = or_key_error (lookup_field k fs) k
index (arr xs) k = err (other "list indices must be integers or slices, not str")
index (str s) k = err (other "string indices must be integers, not 'str'")
index j k = err (other ("'" <> (type_name j <> "' object is not subscriptable")))

abbrev keys : Fields → List Json
keys end = []
keys (field k v fs) = str k ∷ keys fs

abbrev chars : String → List Json
chars String.[] = []
chars (String.◌∷◌ c s) = str (String.◌∷◌ c "") ∷ chars s

-- `for x in j`
unfoldable pub iterate : Json → Result (List Json)
iterate (arr xs) = ok (items xs)
iterate (obj fs) = ok (keys fs)
iterate (str s) = ok (chars s)
iterate j = err (other ("'" <> (type_name j <> "' object is not iterable")))

-- `j[:n]`, as a text that is written to the journal. A list could be sliced too, and is refused by
-- sqlite3 when the journal writes it, under the same `try`.
unfoldable pub slice : Json → ℕ → Result String
slice (str s) n = ok (take_chars n s)
slice (arr xs) n = err (other "type 'list' is not supported")
slice (obj fs) n = err (other "unhashable type: 'slice'")
slice j n = err (other ("'" <> (type_name j <> "' object is not subscriptable")))
