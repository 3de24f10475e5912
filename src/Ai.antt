-- ===== src/Ai.antt =====
-- src/ai/anthropicClient.js and src/ai/llm.js: one call of a language model, and the chain of models
-- that are tried in turn. What `fetch` brings is an argument.
pub mod Classes
pub mod Fallback
mod Tests
use ai_distributed_job_platf.Worker.{is_non_retryable}
use ai_distributed_job_platf.Prelude.{
  ℕ, zero, String, Bool, true, false, not, ◌&&◌, ◌||◌, List, [], ◌∷◌, ◌++◌, Option, none, some, map,
  Error, Outcome, ok, threw, length, any, leb, ◌==◌, str_eq, show, template, join, if◌then◌else◌,
}

-- The blocks of `data.content`.
pub record Block : Type 0 where
  pub kind : String
  pub text : String

-- The JSON of a successful response; `none` is a property that is not there.
pub record Data : Type 0 where
  pub content : Option (List Block)
  pub model : String
  pub stop_reason : Option String
  pub input_tokens : Option ℕ
  pub output_tokens : Option ℕ

-- How a request ends: `fetch` is aborted by the timer, fails with a message, or brings a response
-- with a status that is not `ok` and the `error.message` of its body, if there is one that can be
-- read, or a response that is `ok` and its JSON, or the message of the error in parsing it.
pub data Fetched : Type 0 where
  aborted : Fetched
  network_error : String → Fetched
  refused : ℕ → Option String → Fetched
  answered : Data → Fetched
  unreadable : String → Fetched

-- The result of `callClaude`.
pub record Completion : Type 0 where
  pub text : String
  pub model : String
  pub stop_reason : Option String
  pub input_tokens : ℕ
  pub output_tokens : ℕ

-- `new AIError(message, { status, retryable })`.
abbrev pub ai_error : String → Option ℕ → Bool → Error
ai_error message status retryable = record {
  message = message;
  retryable = some retryable;
  status = status;
}

unfoldable pub is_retryable_status : ℕ → Bool
is_retryable_status status = status == 408 || status == 429 || leb 500 status

abbrev pub detail_text : Option String → String
detail_text none = ""
detail_text (some detail) = if str_eq detail "" then "" else template (": " ∷ detail ∷ [])

abbrev pub texts : List Block → List String
texts [] = []
texts (block ∷ blocks) =
    let rest = texts blocks in if str_eq block.kind "text" then block.text ∷ rest else rest

abbrev pub text_of : Option (List Block) → String
text_of none = ""
text_of (some blocks) = join "" (texts blocks)

abbrev pub or_zero : Option ℕ → ℕ
or_zero none = 0
or_zero (some n) = n

abbrev pub completion : Data → Completion
completion data' = record {
  text = text_of data'.content;
  model = data'.model;
  stop_reason = data'.stop_reason;
  input_tokens = or_zero data'.input_tokens;
  output_tokens = or_zero data'.output_tokens;
}

-- `callClaude` behind the check of the key.
abbrev pub call_result : String → ℕ → Fetched → Outcome Completion
call_result model timeout_ms aborted = threw (
    ai_error
      (template ("Claude call (" ∷ model ∷ ") timed out after " ∷ show timeout_ms ∷ "ms" ∷ [])) none
      true)
call_result model timeout_ms (network_error message) =
    threw
      (ai_error (template ("Claude call (" ∷ model ∷ ") network error: " ∷ message ∷ [])) none true)
call_result model timeout_ms (refused status detail) = threw (
    ai_error (template ("Claude API " ∷ show status ∷ " (" ∷ model ∷ ")" ∷ detail_text detail ∷ []))
      (some status) (is_retryable_status status))
call_result model timeout_ms (answered data') = ok (completion data')
call_result model timeout_ms (unreadable message) =
    threw (record { message = message; retryable = none; status = none })

-- `callClaude`, for a key that is configured or not.
unfoldable pub call_claude : Option String → String → ℕ → Fetched → Outcome Completion
call_claude none model timeout_ms fetched =
    threw (ai_error "ANTHROPIC_API_KEY is not configured" none false)
call_claude (some api_key) model timeout_ms fetched =
    if str_eq api_key ""
    then threw (ai_error "ANTHROPIC_API_KEY is not configured" none false)
    else call_result model timeout_ms fetched

pub record Failure : Type 0 where
  pub model : String
  pub error : String
  pub retryable : Option Bool

-- The result of `generate`.
pub record Generated : Type 0 where
  pub completion : Completion
  pub fallback_used : Bool
  pub failed_models : List (String × String)

-- `failures.map(({ model, error }) => ({ model, error }))`.
abbrev pub failed : List Failure → List (String × String)
failed [] = []
failed (f ∷ failures) = (f.model, f.error) ∷ failed failures

abbrev pub failure_texts : List Failure → List String
failure_texts [] = []
failure_texts (f ∷ failures) = template (f.model ∷ " -> " ∷ f.error ∷ []) ∷ failure_texts failures

-- `f.retryable`, as `some` tests it.
abbrev pub is_truthy : Option Bool → Bool
is_truthy none = false
is_truthy (some b) = b

abbrev pub is_status : ℕ → Option ℕ → Bool
is_status n none = false
is_status n (some status) = status == n

-- `err.retryable === false && err.status !== 404`.
unfoldable pub stops_chain : Error → Bool
stops_chain err = is_non_retryable err.retryable && not (is_status 404 err.status)

-- The error after the last model.
unfoldable pub all_failed : List Failure → Error
all_failed failures =
    ai_error
      (template (
        "All "
        ∷ show (length failures)
        ∷ " models failed: "
        ∷ join " | " (failure_texts failures)
        ∷ []))
      none (any (λ f. is_truthy f.retryable) failures)

abbrev pub failure_of : String → Error → Failure
failure_of model err = record { model = model; error = err.message; retryable = err.retryable }

abbrev pub generated : String → String → List Failure → Completion → Generated
generated first model failures result = record {
  completion = result;
  fallback_used = not (str_eq model first);
  failed_models = failed failures;
}

-- One round of the loop, given what comes of the models that are left.
abbrev pub after_call :
    String
    → String
    → List Failure
    → Outcome Completion
    → (List Failure → Outcome Generated)
    → Outcome Generated
after_call first model failures (ok result) rest = ok (generated first model failures result)
after_call first model failures (threw err) rest =
    if stops_chain err then threw err else rest (failures ++ failure_of model err ∷ [])

-- The loop of `generate`, given what `callClaude` brings for each model, the first model of the
-- chain, the models that are left and the failures so far.
unfoldable pub try_models :
    (String → Outcome Completion) → String → List String → List Failure → Outcome Generated
try_models call first [] failures = threw (all_failed failures)
try_models call first (model ∷ models) failures =
    after_call first model failures (call model) (λ next. try_models call first models next)

-- `generate`.
unfoldable pub generate : (String → Outcome Completion) → List String → Outcome Generated
generate call [] = threw (all_failed [])
generate call (model ∷ models) = try_models call model (model ∷ models) []
