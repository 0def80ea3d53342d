-- ===== src/Observability/Logging/Lines.antt =====
-- What a log line of observability/logging_setup.py says.
use browseterm_device_agent.Prelude.{
  ℕ, String, ◌≡◌, refl, sym, ◌∙◌, Bool, true, false, not, ◌&&◌, List, [], ◌∷◌, eqb, member, Option,
  none, some, ◌==◌, eq_iff, if◌then◌else◌, arith, inl, inr, Bool-cases,
}
use Prim.Native.Char.{code}
use browseterm_device_agent.Text.{codes}
use browseterm_device_agent.Json.{Json, str, Fields, end, field, lookup_field}
use browseterm_device_agent.Observability.Logging.{
  Context, LogRecord, is_extra, set_field, add_extras, canonical, add_exception, payload_of,
}

-- The attributes that every record has, whatever is passed in `extra`.
abbrev standard_attributes : List String
standard_attributes =
    "name" ∷ "msg" ∷ "args" ∷ "levelname" ∷ "levelno" ∷ "pathname" ∷ "filename" ∷ "module"
    ∷ "exc_info" ∷ "exc_text" ∷ "stack_info" ∷ "lineno" ∷ "funcName" ∷ "created" ∷ "msecs"
    ∷ "relativeCreated" ∷ "thread" ∷ "threadName" ∷ "processName" ∷ "process" ∷ "message"
    ∷ "asctime" ∷ "taskName" ∷ []

abbrev first_is : ℕ → List ℕ → Bool
first_is c [] = false
first_is c (d ∷ ds) = eqb d c

-- An attribute that a call has passed in `extra`: no standard one, and its first character is no
-- underscore.
abbrev passed : String → Bool
passed key = if member key standard_attributes then false else not (first_is b'_' (codes key))

neither : (a b : Bool) → (not a && not b) ≡ (if a then false else not b)
neither true b = refl
neither false b = refl

passed-is_extra : (key : String) → is_extra key ≡ passed key
unfolding is_extra
passed-is_extra String.[] = refl
passed-is_extra (String.◌∷◌ c s) =
    neither (member (String.◌∷◌ c s) standard_attributes) (eqb (code c) b'_')

-- The fields of every line.
abbrev standard_field : String → (service : String) → Context → LogRecord → Option Json
standard_field key service c r =
    if "timestamp" == key
    then some (str r.timestamp)
    else if "level" == key
    then some (str r.levelname)
    else if "service" == key
    then some (str service)
    else if "logger" == key
    then some (str r.name)
    else if "message" == key
    then some (str r.message)
    else if "request_id" == key
    then some (str c.request_id)
    else if "user" == key
    then some (str c.user)
    else none

canonical-standard :
    (key service : String) (c : Context) (r : LogRecord)
    → lookup_field key (canonical service c r) ≡ standard_field key service c r
canonical-standard key service c r = refl

-- What the extra `v` with this test adds to those after it.
abbrev pub or_this : Option Json → Bool → Json → Option Json
or_this (some value) here v = some value
or_this none here v = if here then some v else none

-- The value of an extra: of two attributes of one name, the later.
abbrev pub extra : String → Fields → Option Json
extra key end = none
extra key (field k v fs) = or_this (extra key fs) (k == key && passed k) v

abbrev pub first_of : Option Json → Option Json → Option Json
first_of none b = b
first_of (some a) b = some a

-- A line says of `key` what the exception, the extras and the standard fields say, in this order.
abbrev pub said : String → (service : String) → Context → LogRecord → Option Json
said key service c r =
    first_of
      (elim r.exception [
        | none ↦ none
        | some text ↦ if "exc_info" == key then some (str text) else none
      ])
      (first_of (extra key r.attributes) (standard_field key service c r))

lookup-set_field :
    (key other : String) (value : Json) (fs : Fields)
    → lookup_field other (set_field key value fs)
      ≡ (if key == other then some value else lookup_field other fs)
unfolding set_field
lookup-set_field key other value end = refl
lookup-set_field key other value (field k v fs) =
    ground
      (arith, lookup-set_field key other value fs, eq_iff k key, eq_iff k other, eq_iff key other)

first_of-if :
    (later : Option Json) (same : Bool) (v : Json) (before : Option Json)
    → first_of later (if same then some v else before)
      ≡ first_of (or_this later (same && true) v) before
first_of-if (some value) same v before = refl
first_of-if none true v before = refl
first_of-if none false v before = refl

first_of-skip :
    (later : Option Json) (same : Bool) (v : Json) (before : Option Json)
    → first_of later before ≡ first_of (or_this later (same && false) v) before
first_of-skip (some value) same v before = refl
first_of-skip none true v before = refl
first_of-skip none false v before = refl

add_extras-field :
    (k : String) (v : Json) (fs payload : Fields)
    → add_extras (field k v fs) payload
      ≡ add_extras fs (if is_extra k then set_field k v payload else payload)
unfolding add_extras
add_extras-field k v fs payload = elim (Bool-cases (is_extra k)) [
  | inl y ↦ rw (y, add_extras) refl
  | inr n ↦ rw (n, add_extras) refl
]

lookup-add_extras :
    (key : String) (fs payload : Fields)
    → lookup_field key (add_extras fs payload) ≡ first_of (extra key fs) (lookup_field key payload)
lookup-add_extras key end payload = unfold add_extras in refl
lookup-add_extras key (field k v fs) payload =
    let later = lookup-add_extras key fs in
    elim (Bool-cases (is_extra k)) [
      | inl y ↦
          rw
            (
              add_extras-field k v fs payload,
              y,
              sym (passed-is_extra k) ∙ y,
              later _,
              lookup-set_field k key v payload,
            )
            (first_of-if (extra key fs) (k == key) v (lookup_field key payload))
      | inr n ↦
          rw (add_extras-field k v fs payload, n, sym (passed-is_extra k) ∙ n, later _)
            (first_of-skip (extra key fs) (k == key) v (lookup_field key payload))
    ]

lookup-add_exception :
    (key : String) (e : Option String) (payload : Fields)
    → lookup_field key (add_exception e payload)
      ≡ first_of
          (elim e [ none ↦ none | some text ↦ if "exc_info" == key then some (str text) else none ])
          (lookup_field key payload)
lookup-add_exception key none payload = refl
lookup-add_exception key (some text) payload =
    ground (arith, lookup-set_field "exc_info" key (str text) payload)

-- A log line says of each key: the text of the exception for exc_info, if there is one; or else the
-- last of the record's attributes of that name, if the name is not reserved and does not start
-- with an underscore; or else the canonical field, if the key names one.
pub lookup-payload_of :
    (key service : String) (c : Context) (r : LogRecord)
    → lookup_field key (payload_of service c r) ≡ said key service c r
unfolding payload_of
lookup-payload_of key service c r =
    lookup-add_exception key r.exception _ ∙ rw (lookup-add_extras, canonical-standard) refl
