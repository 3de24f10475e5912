-- ===== src/JobHandlers/Tests.antt =====
-- Runs of worker/jobHandlers/aiHandlers.js on replies that are given.
use ai_distributed_job_platf.Prelude.{
  ◌≤◌, ◌≡◌, refl, sym, subst, ◌∙◌, String, true, false, List, [], ◌∷◌, Option, none, some, Error,
  Outcome, ok, threw, is_empty, arith,
}
use mathlib.Core.Bool.{false≢true}
use ai_distributed_job_platf.Models.Json.{
  Json, null, num, str, arr, obj, Items, nil, cons, end, field,
}
use ai_distributed_job_platf.Services.World.{document}
use ai_distributed_job_platf.Services.Memory.{memory}
use ai_distributed_job_platf.Samples.{running_job, world_with}
use ai_distributed_job_platf.Worker.Process.{finish_attempt}
use ai_distributed_job_platf.Worker.Decisions.{dead_lettered}
use ai_distributed_job_platf.Ai.{Completion, Generated, generate, try_models}
use ai_distributed_job_platf.JobHandlers.Texts.{is_space, trim, cleaned}
use ai_distributed_job_platf.JobHandlers.Ai.{
  Chat, WithMeta, no_method, Value, json, classify_prompt, raw_reply, classify_handler,
}
use ai_distributed_job_platf.JobHandlers.Payloads.{property, validate_text, count}
use ai_distributed_job_platf.JobHandlers.Inputs.{IsUsable, Refused, bad_text-dead_letter}
use ai_distributed_job_platf.JobHandlers.Classify.{
  is_item, classify_handler_sound, classify_handler-untyped,
}

-- A reply without the name of the language, with more white space.
cleans : cleaned " \n```\n  {}  ``` \n" ≡ "{}"
unfolding is_space
cleans = refl

abbrev reply : String → Completion
reply text = record {
  text = text;
  model = "m";
  stop_reason = some "end_turn";
  input_tokens = 5;
  output_tokens = 1;
}

abbrev chat : String → Chat
chat text prompt model = ok (reply text)

abbrev answer : String → Generated
answer text = record { completion = reply text; fallback_used = false; failed_models = [] }

abbrev labels : Items
labels = cons (str "positive") (cons (str "negative") nil)

abbrev classified : Json
classified = obj (field "text" (str "fine") (field "labels" (arr labels) end))

abbrev with_output : {A : Type 0} → A → WithMeta A
with_output output = record {
  output = output;
  model = "m";
  fallback_used = false;
  failed_models = [];
  input_tokens = 5;
  output_tokens = 1;
}

abbrev same_case : String → String
same_case text = text

classifies :
    classify_handler same_case (chat " positive.\n") ("m" ∷ []) classified
    ≡ ok (with_output "positive")
unfolding classify_handler validate_text is_space generate try_models
classifies = refl

classify_handler_sound_example :
    (text : String) × (found : Items) × (r : Generated) × (validate_text classified ≡ ok text)
    × (property "labels" classified ≡ some (arr found))
    × (2 ≤ count found)
    × (generate (chat " positive.\n" (classify_prompt found text)) ("m" ∷ []) ≡ ok r)
    × (is_item "positive" found ≡ true)
    × (is_empty "positive" ≡ false)
    × ("positive" ≡ raw_reply same_case r.completion.text)
classify_handler_sound_example =
    classify_handler_sound same_case (chat " positive.\n") ("m" ∷ []) classified
      (with_output "positive") classifies

-- Labels that are numbers.
abbrev numbered : Json
numbered =
    obj (field "text" (str "fine") (field "labels" (arr (cons (num 1) (cons (num 2) nil))) end))

asks :
    generate (chat "1" (classify_prompt (cons (num 1) (cons (num 2) nil)) "fine")) ("m" ∷ [])
    ≡ ok (answer "1")
unfolding generate try_models
asks = refl

fine_text : validate_text numbered ≡ ok "fine"
unfolding validate_text is_space
fine_text = refl

classify_handler-untyped_example :
    (classify_handler same_case (chat "1") ("m" ∷ []) numbered ≡ threw (no_method (num 1)))
    × ((no_method (num 1)).retryable ≡ none)
classify_handler-untyped_example =
    classify_handler-untyped same_case (chat "1") ("m" ∷ []) numbered (num 1) (num 2) nil "fine"
      (answer "1") fine_text refl (λ label e. ground arith) asks

abbrev fields : Items
fields = cons (str "name") (cons (str "email") nil)

abbrev extracted : Json
extracted = obj (field "text" (str "Ann, 1 Main St") (field "fields" (arr fields) end))

abbrev parse : String → Outcome Json
parse text = ok (obj (field "name" (str "Ann") (field "street" (str "Main St") end)))

abbrev nothing_else : Json → String → Option Value
nothing_else value key = none

abbrev data_of_ann : List (String × Value)
data_of_ann = ("name", json (str "Ann")) ∷ ("email", json null) ∷ []

abbrev blank : Json
blank = obj (field "text" (str " \n ") end)

blank_text : is_empty (trim " \n ") ≡ true
unfolding is_space
blank_text = refl

blank_unusable : (text : String) → IsUsable (property "text" blank) text → ⊥
blank_unusable text usable =
    let same : (◌≡◌ {A = String} text " \n ") = ground (arith, usable.given) in
    let full = subst (λ t. is_empty (trim t) ≡ false) same usable.full in
    absurd (false≢true (sym full ∙ blank_text))

bad_text-dead_letter_example :
    (err : Error) × Refused (λ v. 0) same_case parse nothing_else (chat "{}") ("m" ∷ []) blank err
    × (document 0 (finish_attempt "w1" 2000 0 running_job (threw err) (world_with running_job)).1
        ≡ some (dead_lettered "w1" 2000 running_job err running_job))
bad_text-dead_letter_example =
    bad_text-dead_letter (λ v. 0) same_case parse nothing_else (chat "{}") ("m" ∷ []) "w1" 2000 0
      (world_with running_job) running_job running_job blank blank_unusable refl refl
