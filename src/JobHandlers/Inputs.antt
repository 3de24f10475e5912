-- ===== src/JobHandlers/Inputs.antt =====
-- What becomes of bad input (worker/jobHandlers/aiHandlers.js, `validateText`, with worker/worker.js).
use ai_distributed_job_platf.Prelude.{
  ℕ, ◌≤◌, ◌≡◌, ◌⊎◌, inl, inr, refl, String, true, false, List, [], ◌∷◌, show, template, Option,
  none, some, Error, Outcome, ok, threw, ltb, is_empty, Bool-cases, str_eq_iff, arith,
}
use ai_distributed_job_platf.Models.Json.{Json, null, bool, num, str, arr, obj}
use ai_distributed_job_platf.Models.Job.{Job}
use ai_distributed_job_platf.Services.{Services}
use ai_distributed_job_platf.Services.World.{World, document}
use ai_distributed_job_platf.Worker.{owner_eq}
use ai_distributed_job_platf.Worker.Process.{finish_attempt}
use ai_distributed_job_platf.Worker.Failure.{handle_failure-dead_letter}
use ai_distributed_job_platf.Worker.Decisions.{dead_lettered}
use ai_distributed_job_platf.JobHandlers.Texts.{trim, utf16_length}
use ai_distributed_job_platf.JobHandlers.Ai.{
  Chat, Value, summarize_handler, classify_handler, extract_handler,
}
use ai_distributed_job_platf.JobHandlers.Payloads.{
  max_input_chars, property, bad_input, checked_text, check_text, validate_text,
}

-- A text that the handlers take.
pub record IsUsable (value : Option Json) (text : String) : Type 0 where
  pub given : value ≡ some (str text)
  pub full : is_empty (trim text) ≡ false
  pub short : utf16_length text ≤ 20000

abbrev no_text : Error
no_text = bad_input "payload.text must be a non-empty string"

abbrev too_long : Error
too_long =
    bad_input (template ("payload.text exceeds " ∷ show max_input_chars ∷ " characters" ∷ []))

checked_text-cases :
    (text : String)
    → ((checked_text text ≡ ok text) × IsUsable (some (str text)) text)
      ⊎ ((err : Error) × (checked_text text ≡ threw err) × (err.retryable ≡ some false))
checked_text-cases text = elim (Bool-cases (is_empty (trim text))) [
  | inl blank ↦ inr (no_text, rw blank refl, refl)
  | inr full ↦ elim (Bool-cases (ltb 20000 (utf16_length text))) [
    | inl long ↦ inr (too_long, rw (full, long) refl, refl)
    | inr fits ↦
        inl (rw (full, fits) refl, record { given = refl; full = full; short = ground arith })
  ]
]

check_text-cases :
    (value : Option Json)
    → ((text : String) × (check_text value ≡ ok text) × IsUsable value text)
      ⊎ ((err : Error) × (check_text value ≡ threw err) × (err.retryable ≡ some false))
check_text-cases none = inr (no_text, refl, refl)
check_text-cases (some null) = inr (no_text, refl, refl)
check_text-cases (some (bool b)) = inr (no_text, refl, refl)
check_text-cases (some (num n)) = inr (no_text, refl, refl)
check_text-cases (some (arr items)) = inr (no_text, refl, refl)
check_text-cases (some (obj fields)) = inr (no_text, refl, refl)
check_text-cases (some (str text)) = elim (checked_text-cases text) [
  | inl (valid, usable) ↦ inl (text, valid, usable)
  | inr bad ↦ inr bad
]

module _ (number : Json → ℕ) (to_lower_case : String → String) (parse : String → Outcome Json)
    (others : Json → String → Option Value) (chat : Chat) (models : List String) where
  -- All three handlers refuse the payload with the error.
  pub record Refused (payload : Json) (err : Error) : Type 0 where
    pub final : err.retryable ≡ some false
    pub summarize : summarize_handler number chat models payload ≡ threw err
    pub classify : classify_handler to_lower_case chat models payload ≡ threw err
    pub extract : extract_handler parse others chat models payload ≡ threw err

  validate_text-Refused :
      (payload : Json) (err : Error)
      → validate_text payload ≡ threw err
      → err.retryable ≡ some false
      → Refused payload err
  unfolding summarize_handler classify_handler extract_handler
  validate_text-Refused payload err bad final = record {
    final = final;
    summarize = rw bad refl;
    classify = rw bad refl;
    extract = rw bad refl;
  }

  module _ ⦃s : Services⦄ where
    -- The handlers and the worker together, on a payload without a usable text. If the text of a
    -- payload is not a string, is blank, or is longer than 20000 UTF-16 units, all handlers of
    -- models refuse it with one error, whatever the models would say, and the worker that holds the
    -- job's lock moves the job to DEAD_LETTER at once, whatever attempts are left.
    pub bad_text-dead_letter :
        (worker_id : String) (now job_id : ℕ) (w : World) (job d : Job) (payload : Json)
        → ((text : String) → IsUsable (property "text" payload) text → ⊥)
        → document job_id w ≡ some d
        → d.locked_by ≡ some worker_id
        → (err : Error) × Refused payload err
          × (document job_id (finish_attempt worker_id now job_id job (threw err) w).1
              ≡ some (dead_lettered worker_id now job err d))
    unfolding finish_attempt validate_text
    bad_text-dead_letter worker_id now job_id w job d payload unusable here locked =
        elim (check_text-cases (property "text" payload)) [
          | inl (text, valid, usable) ↦ absurd (unusable text usable)
          | inr (err, bad, final) ↦
              let owner : owner_eq d.locked_by (some worker_id) ≡ true =
                rw locked ((str_eq_iff worker_id worker_id).1 refl) in
              (
                err,
                validate_text-Refused payload err bad final,
                (handle_failure-dead_letter worker_id now job_id job err (some worker_id) w d here
                    owner (inr final)).1,
              )
        ]
