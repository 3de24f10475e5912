-- ===== src/Worker/Decisions.antt =====
-- Whether a failed attempt is the last one, and what it writes (worker/worker.js, `handleFailure`).
use ai_distributed_job_platf.Prelude.{
  ℕ, ◌≤◌, ◌<◌, ◌≡◌, ◌≢◌, ◌⊎◌, inl, inr, ap, String, Bool, true, false, ◌||◌, some, Error, leb,
  Bool-cases, arith,
}
use native.Mathlib.Decide.{dec_lt}
use ai_distributed_job_platf.Models.Job.{Job, retrying, dead_letter, push_history}
use ai_distributed_job_platf.Worker.{
  entry, set_failed, is_non_retryable, dead_letter_reason, retry_note,
}

-- The test of the first `if`.
abbrev pub gives_up : Job → Error → Bool
gives_up job err = leb job.max_attempts job.attempts || is_non_retryable err.retryable

pub gives_up_yes :
    (job : Job) (err : Error)
    → (job.max_attempts ≤ job.attempts) ⊎ (err.retryable ≡ some false)
    → gives_up job err ≡ true
gives_up_yes job err h = ground arith

pub gives_up_no :
    (job : Job) (err : Error)
    → job.attempts < job.max_attempts
    → err.retryable ≢ some false
    → gives_up job err ≡ false
gives_up_no job err h k = ground arith

-- The document after it was given up, and after a retry was scheduled.
abbrev pub dead_lettered : String → ℕ → Job → Error → Job → Job
dead_lettered worker_id now job err stored =
    push_history (entry dead_letter now worker_id (dead_letter_reason job err))
      (set_failed dead_letter err.message stored)

abbrev pub set_retrying : String → ℕ → Job → Error → Job → Job
set_retrying worker_id now job err stored =
    push_history (entry retrying now worker_id (retry_note job err))
      (set_failed retrying err.message stored)

-- A failure is final, or the job is tried again.
pub gives_up-cases :
    (job : Job) (err : Error)
    → ((job.max_attempts ≤ job.attempts) ⊎ (err.retryable ≡ some false))
      ⊎ ((job.attempts < job.max_attempts) × (err.retryable ≢ some false))
gives_up-cases job err = elim (dec_lt job.attempts job.max_attempts) [
  | yes left ↦ elim (Bool-cases (is_non_retryable err.retryable)) [
    | inl final ↦ inl (inr (ground arith))
    | inr again ↦ inr (left, λ e. cc (ap is_non_retryable e, again))
  ]
  | no used ↦ inl (inl (omega arith))
]
