-- ===== src/JobHandlers/Simulated.antt =====
-- src/worker/jobHandlers/index.js: the handlers that only wait, and how worker/worker.js races them
-- with the timer of the job.
use ai_distributed_job_platf.Prelude.{
  ℕ, ◌+◌, ◌≤◌, ◌<◌, ◌≡◌, ◌⊎◌, refl, ◌∙◌, inl, inr, min, String, true, false, List, [], ◌∷◌, Option,
  none, some, Error, plain_error, Outcome, ok, threw, leb, str_eq, any, show, template, length,
  if◌then◌else◌, Bool-cases, arith,
}
use ai_distributed_job_platf.Models.Json.{Json, null, bool, str, obj, Fields, end, field}
use ai_distributed_job_platf.Models.Job.{Job, dead_letter}
use ai_distributed_job_platf.Services.{Services}
use ai_distributed_job_platf.Services.World.{World, document}
use ai_distributed_job_platf.JobHandlers.{get_handler}
use ai_distributed_job_platf.JobHandlers.Payloads.{property}
use ai_distributed_job_platf.Worker.Process.{Handlers, run_handler}
use ai_distributed_job_platf.Worker.Retries.{KeepsFailing, attempts_at, attempts_at-AfterFailures}

-- How long a handler waits, and what it settles with then.
pub record Run : Type 0 where
  pub duration_ms : ℕ
  pub outcome : Outcome Json

-- A property whose value may be undefined, which is as good as none.
abbrev pub optional : String → Option Json → Fields
optional name none = end
optional name (some value) = field name value end

abbrev pub null_error : String → Error
null_error name =
    plain_error (template ("Cannot read properties of null (reading '" ∷ name ∷ "')" ∷ []))

-- `{ [flag]: true, [name]: payload[name] }`.
abbrev pub echo : String → String → Json → Outcome Json
echo flag name null = threw (null_error name)
echo flag name payload = ok (obj (field flag (bool true) (optional name (property name payload))))

abbrev pub send_email_handler : Json → Run
send_email_handler payload = record { duration_ms = 1000; outcome = echo "sent" "to" payload }

abbrev pub resize_image_handler : Json → Run
resize_image_handler payload = record { duration_ms = 1500; outcome = echo "resized" "url" payload }

-- The report's id has the time at which the handler is done.
abbrev pub generate_report_handler : ℕ → Run
generate_report_handler now = record {
  duration_ms = 2000;
  outcome = ok (
      obj (
        field "reportGenerated" (bool true)
          (field "reportId" (str (template ("report-" ∷ show (now + 2000) ∷ []))) end)));
}

abbrev pub always_fail_handler : Run
always_fail_handler = record {
  duration_ms = 300;
  outcome = threw (plain_error "Simulated permanent failure for testing retry/DLQ flow");
}

abbrev pub slow_job_handler : Run
slow_job_handler = record {
  duration_ms = 35000;
  outcome = ok (
      obj (
        field "completed" (bool true)
          (field "note" (str "finished despite taking longer than the lock TTL") end)));
}

abbrev pub crash_test_handler : Run
crash_test_handler = record {
  duration_ms = 8000;
  outcome = ok (obj (field "completed" (bool true) end));
}

-- The handler of a type of the table, started at a time; `none` for the handlers of models, which
-- have no fixed duration.
unfoldable pub simulated : ℕ → String → Json → Option Run
simulated now type_name payload =
    if str_eq type_name "send-email"
    then some (send_email_handler payload)
    else if str_eq type_name "resize-image"
    then some (resize_image_handler payload)
    else if str_eq type_name "generate-report"
    then some (generate_report_handler now)
    else if str_eq type_name "always-fail"
    then some always_fail_handler
    else if str_eq type_name "slow-job"
    then some slow_job_handler
    else if str_eq type_name "crash-test"
    then some crash_test_handler
    else none

-- Whether the handler settles before the timer. The handler is called first, so that it also wins
-- when both are due at the same time.
abbrev pub in_time : ℕ → Run → Option (Outcome Json)
in_time timeout_ms run = if leb run.duration_ms timeout_ms then some run.outcome else none

abbrev pub run_in_time : ℕ → Option (Outcome Json) → Option Run → Option (Outcome Json)
run_in_time timeout_ms others none = others
run_in_time timeout_ms others (some run) = in_time timeout_ms run

-- The table, given how the races of the other handlers end.
abbrev pub job_handlers_at : ℕ → ℕ → Handlers → Handlers
job_handlers_at now timeout_ms others type_name payload =
    run_in_time timeout_ms (others type_name payload) (simulated now type_name payload)

-- How long an attempt takes: until the handler or the timer is done.
abbrev pub attempt_ms : ℕ → Run → ℕ
attempt_ms timeout_ms run = min run.duration_ms timeout_ms

-- A type whose handler never brings a result before a timer of this length.
abbrev pub NeverSucceeds : String → ℕ → Type 0
NeverSucceeds type_name timeout_ms =
    (type_name ≡ "always-fail") ⊎ ((type_name ≡ "slow-job") × (timeout_ms < 35000))

NeverSucceeds-KeepsFailing :
    (now timeout_ms : ℕ) (others : Handlers) (type_name : String)
    → NeverSucceeds type_name timeout_ms
    → KeepsFailing (job_handlers_at now timeout_ms others) type_name
unfolding run_handler get_handler any simulated
NeverSucceeds-KeepsFailing now timeout_ms others type_name (inr (slow, short)) d e =
    let late : leb 35000 timeout_ms ≡ false = ground arith in
    (
      plain_error (template ("Job timed out after " ∷ show d.timeout_ms ∷ "ms" ∷ [])),
      rw (e ∙ slow, late) refl,
      λ h. ground arith,
    )
NeverSucceeds-KeepsFailing now timeout_ms others type_name (inl fails) d e =
    elim (Bool-cases (leb 300 timeout_ms)) [
      | inl enough ↦ (
        plain_error "Simulated permanent failure for testing retry/DLQ flow",
        rw (e ∙ fails, enough) refl,
        λ h. ground arith,
      )
      | inr short ↦ (
        plain_error (template ("Job timed out after " ∷ show d.timeout_ms ∷ "ms" ∷ [])),
        rw (e ∙ fails, short) refl,
        λ h. ground arith,
      )
    ]

module _ ⦃s : Services⦄ where
  -- The table, the worker and the retries together. While Redis answers, a job of the type
  -- `always-fail`, or one of the type `slow-job` whose timer is shorter than its 35 seconds, that has
  -- attempts left is DEAD_LETTER after exactly these attempts.
  simulated-dead_letter :
      (worker_id : String) (job_id now : ℕ) (others : Handlers) (times : List (ℕ × ℕ)) (w : World)
      (job : Job)
      → NeverSucceeds job.type_name job.timeout_ms
      → document job_id w ≡ some job
      → w.redis_up ≡ true
      → 1 ≤ length times
      → job.attempts + length times ≡ job.max_attempts
      → let handlers = job_handlers_at now job.timeout_ms others in
        (d : Job) × (document job_id (attempts_at worker_id handlers job_id times w) ≡ some d)
        × (d.status ≡ dead_letter)
        × (d.attempts ≡ job.max_attempts)
  simulated-dead_letter worker_id job_id now others times w job never here up some_times all =
      let (d, stored, after, status) =
        attempts_at-AfterFailures worker_id (job_handlers_at now job.timeout_ms others) job_id times
          w job (NeverSucceeds-KeepsFailing now job.timeout_ms others job.type_name never) here up
          some_times in
      (d, stored, status ∙ ground arith, after.attempts ∙ all)
