-- ===== src/Worker/Retries.antt =====
-- How often a job is tried (worker/worker.js, `processJob` and `handleFailure` together).
use ai_distributed_job_platf.Prelude.{
  ℕ, ◌+◌, ◌≤◌, ◌≡◌, ◌≢◌, refl, inl, sym, subst, ◌∙◌, String, true, false, List, [], ◌∷◌, some,
  Error, ltb, if◌then◌else◌, ok, threw, str_eq_iff, length, arith,
}
use native.Mathlib.Decide.{dec_lt}
use ai_distributed_job_platf.Models.Job.{Job, Status, retrying, dead_letter}
use ai_distributed_job_platf.Services.{Services}
use ai_distributed_job_platf.Services.World.{World, document}
use ai_distributed_job_platf.Worker.{owner_eq}
use ai_distributed_job_platf.Worker.Process.{
  claimed, start_attempt, finish_attempt, process_job, Handlers, run_handler,
}
use ai_distributed_job_platf.Worker.Attempt.{start_attempt_lem}
use ai_distributed_job_platf.Worker.Failure.{handle_failure-dead_letter, handle_failure-retry}
use ai_distributed_job_platf.Worker.Decisions.{dead_lettered, set_retrying}

-- The state of a job after a failed attempt.
abbrev pub failed_status : ℕ → ℕ → Status
failed_status attempts max_attempts = if ltb attempts max_attempts then retrying else dead_letter

-- The handlers fail each time on jobs of a type, and not with an error that forbids a retry.
abbrev pub KeepsFailing : Handlers → String → Type 0
KeepsFailing handlers type_name =
    (d : Job)
    → d.type_name ≡ type_name
    → (err : Error) × (run_handler handlers d ≡ threw err) × (err.retryable ≢ some false)

-- A job `d` that is `job` after `k` failed attempts.
pub record AfterFailures (k : ℕ) (job d : Job) : Type 0 where
  pub attempts : d.attempts ≡ job.attempts + k
  pub max_attempts : d.max_attempts ≡ job.max_attempts
  pub type_name : d.type_name ≡ job.type_name

module _ ⦃s : Services⦄ (worker_id : String) (handlers : Handlers) (job_id : ℕ) where
  -- One failed attempt at a job.
  process_job-failed :
      (now later : ℕ) (w : World) (job : Job)
      → KeepsFailing handlers job.type_name
      → document job_id w ≡ some job
      → w.redis_up ≡ true
      → (d : Job) × (document job_id (process_job worker_id now later handlers job_id w).1 ≡ some d)
        × AfterFailures 1 job d
        × (d.status ≡ failed_status d.attempts d.max_attempts)
        × ((process_job worker_id now later handlers job_id w).1.redis_up ≡ true)
        × ((process_job worker_id now later handlers job_id w).0 ≡ ok tt)
  unfolding process_job finish_attempt
  process_job-failed now later w job fails here up =
      let started = start_attempt_lem worker_id now job_id w job here in
      let (err, threw_err, retryable) = fails (claimed worker_id now job) refl in
      let owner : owner_eq (some worker_id) (some worker_id) ≡ true =
        (str_eq_iff worker_id worker_id).1 refl in
      let w₁ = (start_attempt worker_id now job_id w).1 in
      elim (dec_lt (job.attempts + 1) job.max_attempts) [
        | yes left ↦
            let f =
              handle_failure-retry worker_id later job_id (claimed worker_id now job) err
                (some worker_id) w₁ (claimed worker_id now job) started.1 owner left retryable
                (started.3.redis_up ∙ up) in
            rw started.0 (
              rw threw_err (
                set_retrying worker_id later (claimed worker_id now job) err
                    (claimed worker_id now job),
                f.1,
                record { attempts = refl; max_attempts = refl; type_name = refl },
                ground arith,
                f.4 ∙ (started.3.redis_up ∙ up),
                f.0,
              ))
        | no used ↦
            let f =
              handle_failure-dead_letter worker_id later job_id (claimed worker_id now job) err
                (some worker_id) w₁ (claimed worker_id now job) started.1 owner
                (inl (omega arith)) in
            rw started.0 (
              rw threw_err (
                dead_lettered worker_id later (claimed worker_id now job) err
                    (claimed worker_id now job),
                f.1,
                record { attempts = refl; max_attempts = refl; type_name = refl },
                ground arith,
                f.3.redis_up ∙ (started.3.redis_up ∙ up),
                f.0,
              ))
      ]

  -- Attempts one after the other, each with its times of start and end.
  pub attempts_at : List (ℕ × ℕ) → World → World
  attempts_at [] w = w
  attempts_at ((now, later) ∷ times) w =
      attempts_at times (process_job worker_id now later handlers job_id w).1

  -- While Redis answers, if the handlers of a job keep failing with errors that may be retried,
  -- then after one or more attempts the job has counted each of them, and it is RETRYING as long as
  -- it has counted fewer than maxAttempts and DEAD_LETTER from then on: the last attempt is number
  -- maxAttempts, not one more and not one less.
  pub attempts_at-AfterFailures :
      (times : List (ℕ × ℕ)) (w : World) (job : Job)
      → KeepsFailing handlers job.type_name
      → document job_id w ≡ some job
      → w.redis_up ≡ true
      → 1 ≤ length times
      → (d : Job) × (document job_id (attempts_at times w) ≡ some d)
        × AfterFailures (length times) job d
        × (d.status ≡ failed_status (job.attempts + length times) job.max_attempts)
  unfolding attempts_at
  attempts_at-AfterFailures [] w job fails here up some_times = absurd (omega arith)
  attempts_at-AfterFailures ((now, later) ∷ []) w job fails here up some_times =
      let (d, stored, after, status, up', done) =
        process_job-failed now later w job fails here up in
      (d, stored, after, ground arith)
  attempts_at-AfterFailures ((now, later) ∷ next ∷ times) w job fails here up some_times =
      let (d, stored, after, status, up', done) =
        process_job-failed now later w job fails here up in
      let (e, stored', after', status') =
        attempts_at-AfterFailures (next ∷ times)
          (process_job worker_id now later handlers job_id w).1 d
          (subst (KeepsFailing handlers) (sym after.type_name) fails) stored up' (omega arith) in
      (
        e,
        stored',
        record {
          attempts = omega (arith, after.attempts, after'.attempts);
          max_attempts = after'.max_attempts ∙ after.max_attempts;
          type_name = after'.type_name ∙ after.type_name;
        },
        status' ∙ ground (arith, after.attempts, after.max_attempts),
      )
