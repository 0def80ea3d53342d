-- ===== src/Observability/Logging.antt =====
-- observability/logging_setup.py. What it uses of the `logging` module is a record's attributes and
-- the root logger's list of handlers; a handler is known by a number.
pub mod Lines
pub mod Handlers
use Prim.Native.Char.{code}
use Prim.Native.String
use browseterm_device_agent.Prelude.{
  ℕ, zero, suc, String, Bool, true, false, not, ◌&&◌, ◌||◌, Option, none, some, List, [], ◌∷◌, ◌++◌,
  eqb, ◌==◌, if◌then◌else◌, member,
}
use browseterm_device_agent.Json.{Json, str, Fields, end, field, obj, Payload, dumped}

-- The two context variables, and their defaults.
pub record Context : Type 0 where
  pub request_id : String
  pub user : String

abbrev pub default_context : Context
default_context = record { request_id = "-"; user = "system:-" }

-- What `format` reads of a LogRecord: `attributes` is its `__dict__`, each value as
-- `json.dumps(..., default=str)` writes it, `timestamp` the ISO text of `created`, `message` what
-- `getMessage` gives, and `exception` the text that `formatException` makes of `exc_info`.
pub record LogRecord : Type 0 where
  pub timestamp : String
  pub levelname : String
  pub name : String
  pub message : String
  pub attributes : Fields
  pub exception : Option String

-- `_RESERVED`: the attributes of an empty record, and three more.
abbrev pub reserved : List String
reserved =
    "name" ∷ "msg" ∷ "args" ∷ "levelname" ∷ "levelno" ∷ "pathname" ∷ "filename" ∷ "module"
    ∷ "exc_info" ∷ "exc_text" ∷ "stack_info" ∷ "lineno" ∷ "funcName" ∷ "created" ∷ "msecs"
    ∷ "relativeCreated" ∷ "thread" ∷ "threadName" ∷ "processName" ∷ "process" ∷ "message"
    ∷ "asctime" ∷ "taskName" ∷ []

-- `key.startswith("_")`
abbrev pub is_private : String → Bool
is_private String.[] = false
is_private (String.◌∷◌ c s) = eqb (code c) b'_'

unfoldable pub is_extra : String → Bool
is_extra key = not (member key reserved) && not (is_private key)

-- `payload[key] = value`
unfoldable pub set_field : String → Json → Fields → Fields
set_field key value end = field key value end
set_field key value (field k v fs) =
    let rest = set_field key value fs in if k == key then field k value fs else field k v rest

-- The `for` loop over the record's attributes.
unfoldable pub add_extras : Fields → (payload : Fields) → Fields
unfolding is_extra set_field
add_extras end payload = payload
add_extras (field key value fs) payload =
    let with_it = add_extras fs (set_field key value payload) in
    let without = add_extras fs payload in if is_extra key then with_it else without

abbrev pub canonical : (service : String) → Context → LogRecord → Fields
canonical service c r = field "timestamp" (str r.timestamp) (
    field "level" (str r.levelname) (
      field "service" (str service) (
        field "logger" (str r.name) (
          field "message" (str r.message)
            (field "request_id" (str c.request_id) (field "user" (str c.user) end))))))

abbrev pub add_exception : Option String → Fields → Fields
add_exception none payload = payload
add_exception (some text) payload = set_field "exc_info" (str text) payload

-- The dict that `JsonFormatter.format` dumps.
unfoldable pub payload_of : (service : String) → Context → LogRecord → Fields
unfolding add_extras set_field
payload_of service c r = add_exception r.exception (add_extras r.attributes (canonical service c r))

unfoldable pub format : (service : String) → Context → LogRecord → Payload
unfolding payload_of
format service c r = dumped (obj (payload_of service c r))

-- A handler of the root logger, with the service that its formatter names.
pub record LogHandler : Type 0 where
  pub number : ℕ
  pub service : Option String

pub record Root : Type 0 where
  pub level : ℕ
  pub handlers : List LogHandler

-- `root.removeHandler(h)`
unfoldable pub remove_handler : LogHandler → List LogHandler → List LogHandler
remove_handler h [] = []
remove_handler h (x ∷ xs) =
    let rest = remove_handler h xs in if eqb x.number h.number then xs else x ∷ rest

-- The `for` loop over a copy of the list.
unfoldable pub remove_all : (copy : List LogHandler) → List LogHandler → List LogHandler
unfolding remove_handler
remove_all [] hs = hs
remove_all (h ∷ copy) hs = remove_all copy (remove_handler h hs)

-- `handler` is the number of the new StreamHandler.
unfoldable pub configure_logging : (service : String) (level handler : ℕ) → Root → Root
unfolding remove_all
configure_logging service level handler root = record {
  level = level;
  handlers =
      remove_all root.handlers root.handlers
      ++ (record { number = handler; service = some service }) ∷ [];
}

-- `request_id or new_request_id()`; `fresh` is the hexadecimal text of a new UUID.
abbrev pub request_id_or : (fresh : String) → Option String → String
request_id_or fresh none = fresh
request_id_or fresh (some id) = if id == "" then fresh else id

unfoldable pub set_request_context :
    (fresh : String) → (request_id user : Option String) → Context → String × Context
set_request_context fresh request_id user c =
    let rid = request_id_or fresh request_id in
    (rid, record { request_id = rid; user = elim user [ none ↦ c.user | some u ↦ u ] })
