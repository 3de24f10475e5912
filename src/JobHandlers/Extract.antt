-- ===== src/JobHandlers/Extract.antt =====
-- The shape of extracted data (worker/jobHandlers/aiHandlers.js, `extractHandler`).
use ai_distributed_job_platf.Prelude.{
  ◌≡◌, ◌⊎◌, String, Bool, false, ◌||◌, List, [], ◌∷◌, Option, none, some, str_eq, if◌then◌else◌,
}
use ai_distributed_job_platf.Models.Json.{Json, null, Items, nil, cons}
use ai_distributed_job_platf.JobHandlers.Ai.{json, Value, key_of}
use ai_distributed_job_platf.JobHandlers.Payloads.{property}

-- What is under a key.
abbrev pub entry_at : String → List (String × Value) → Option Value
entry_at key [] = none
entry_at key ((other, value) ∷ entries) =
    let rest = entry_at key entries in if str_eq other key then some value else rest

-- Whether a key is the name of one of the fields.
abbrev pub is_field : String → Items → Bool
is_field key nil = false
is_field key (cons name names) = let rest = is_field key names in str_eq (key_of name) key || rest

-- What the code finds in the parsed reply under a key: an own property of it, or something else that
-- it has there, or null if it is null itself or has nothing there.
pub data Finds (others : Json → String → Option Value) (parsed : Json) (key : String)
    : Value → Type 0 where
  own : (value : Json) → property key parsed ≡ some value → Finds others parsed key (json value)
  inherited :
      (value : Value)
      → property key parsed ≡ none
      → others parsed key ≡ some value
      → Finds others parsed key value
  nothing :
      property key parsed ≡ none
      → (parsed ≡ null) ⊎ (others parsed key ≡ none)
      → Finds others parsed key (json null)
