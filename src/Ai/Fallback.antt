-- ===== src/Ai/Fallback.antt =====
-- The chain of models (ai/llm.js, `generate`).
use ai_distributed_job_platf.Prelude.{
  String, ◌≡◌, refl, sym, ap, ◌∙◌, true, false, List, [], ◌∷◌, ◌++◌, Error, Outcome, ok, threw,
}
use mathlib.Core.List.{append_assoc, append-nil}
use ai_distributed_job_platf.Ai.{
  Completion, Failure, failure_of, generated, stops_chain, try_models, generate,
}

-- Every one of the models fails, with an error that lets the next model have its turn; the list has
-- these errors.
abbrev pub AllFail : (String → Outcome Completion) → List String → List Error → Type 0
AllFail call [] [] = Unit {0}
AllFail call [] (err ∷ errors) = ⊥
AllFail call (model ∷ models) [] = ⊥
AllFail call (model ∷ models) (err ∷ errors) =
    (call model ≡ threw err) × (stops_chain err ≡ false) × AllFail call models errors

abbrev pub failures_of : List String → List Error → List Failure
failures_of (model ∷ models) (err ∷ errors) = failure_of model err ∷ failures_of models errors
failures_of _ _ = []

module _ (call : String → Outcome Completion) where
  try_models-append :
      (first : String) (before rest : List String) (errors : List Error) (failures : List Failure)
      → AllFail call before errors
      → try_models call first (before ++ rest) failures
        ≡ try_models call first rest (failures ++ failures_of before errors)
  unfolding try_models
  try_models-append first [] rest [] failures h =
      ap (try_models call first rest) (sym (append-nil failures))
  try_models-append first [] rest (err ∷ errors) failures h = absurd h
  try_models-append first (model ∷ before) rest [] failures h = absurd h
  try_models-append first (model ∷ before) rest (err ∷ errors) failures (fails, goes_on, h) =
      rw (fails, goes_on)
        (try_models-append first before rest errors (failures ++ failure_of model err ∷ []) h
          ∙ ap (try_models call first rest)
              (append_assoc failures (failure_of model err ∷ []) (failures_of before errors)))

  -- The first model of a chain.
  abbrev pub first_of : List String → String → String
  first_of [] model = model
  first_of (first ∷ before) model = first

  generate-append :
      (before : List String) (model : String) (after : List String) (errors : List Error)
      → AllFail call before errors
      → generate call (before ++ model ∷ after)
        ≡ try_models call (first_of before model) (model ∷ after) (failures_of before errors)
  unfolding generate
  generate-append [] model after [] h = refl
  generate-append [] model after (err ∷ errors) h = absurd h
  generate-append (first ∷ before) model after errors h =
      try_models-append first (first ∷ before) (model ∷ after) errors [] h

  -- If the models before one fail with errors that let the next one have its turn, and that one
  -- answers, its answer is the result, with the models before it and their errors in order, and the
  -- models behind it do not matter.
  generate_answered :
      (before : List String) (model : String) (after : List String) (errors : List Error)
      (result : Completion)
      → AllFail call before errors
      → call model ≡ ok result
      → generate call (before ++ model ∷ after)
        ≡ ok (generated (first_of before model) model (failures_of before errors) result)
  unfolding try_models
  generate_answered before model after errors result h answers =
      generate-append before model after errors h ∙ rw answers refl

  -- An error that is marked as not retryable, other than a 404, ends the chain: it is thrown, and the
  -- models behind are not called.
  generate_stopped :
      (before : List String) (model : String) (after : List String) (errors : List Error)
      (err : Error)
      → AllFail call before errors
      → call model ≡ threw err
      → stops_chain err ≡ true
      → generate call (before ++ model ∷ after) ≡ threw err
  unfolding try_models
  generate_stopped before model after errors err h fails stops =
      generate-append before model after errors h ∙ rw (fails, stops) refl
