-- ===== src/JobHandlers.antt =====
-- src/worker/jobHandlers/index.js: the table of handlers. What a handler does when it runs is the
-- concern of its own module; here it is known by the name under which it is found.
pub mod Texts
pub mod Fences
pub mod Payloads
pub mod Ai
pub mod Simulated
pub mod Inputs
pub mod Classify
pub mod Extract
mod Tests
use ai_distributed_job_platf.Prelude.{
  String, Bool, false, ◌||◌, List, [], ◌∷◌, none, some, Error, Outcome, ok, threw, any, str_eq,
  template, if◌then◌else◌,
}

-- The own properties of `jobHandlers`, those of `aiHandlers` included.
abbrev pub job_handlers : List String
job_handlers =
    "send-email" ∷ "resize-image" ∷ "generate-report" ∷ "always-fail" ∷ "slow-job" ∷ "crash-test"
    ∷ "ai-summarize" ∷ "ai-classify" ∷ "ai-extract" ∷ []

-- `jobHandlers` is an object literal, so `jobHandlers[type]` also finds what it inherits from
-- `Object.prototype`.
abbrev pub object_prototype : List String
object_prototype =
    "constructor" ∷ "__defineGetter__" ∷ "__defineSetter__" ∷ "hasOwnProperty" ∷ "__lookupGetter__"
    ∷ "__lookupSetter__" ∷ "isPrototypeOf" ∷ "propertyIsEnumerable" ∷ "toString" ∷ "valueOf"
    ∷ "__proto__" ∷ "toLocaleString" ∷ []

abbrev pub is_key : String → List String → Bool
is_key type_name keys = any (str_eq type_name) keys

unfoldable pub no_handler : String → Error
no_handler type_name = record {
  message = template ("No handler registered for job type: " ∷ type_name ∷ []);
  retryable = some false;
  status = none;
}

-- `jobHandlers[type]`, or an error that is marked as not retryable.
unfoldable pub get_handler : String → Outcome String
get_handler type_name =
    if is_key type_name job_handlers || is_key type_name object_prototype
    then ok type_name
    else threw (no_handler type_name)
