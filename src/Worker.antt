-- ===== src/Worker.antt =====
-- src/worker/worker.js: one worker process. Each function is given the worker's id and, for
-- `Date.now()`, the time; an attempt is in two parts, before and after its handler runs, since other
-- processes act in between.
pub mod Process
pub mod Loops
pub mod Backoff
pub mod Fencing
pub mod Decisions
pub mod Failure
pub mod Frames
pub mod Attempt
pub mod Retries
pub mod Endings
pub mod Lanes
pub mod Unknown
pub mod Losses
pub mod Recovery
pub mod Rescue
pub mod Promoting
mod Tests
use ai_distributed_job_platf.Prelude.{
  ℕ, zero, suc, ◌+◌, ◌*◌, ◌/◌, ◌^◌, max, min, String, Bool, true, false, ◌&&◌, ◌||◌, List, [], ◌∷◌,
  ◌++◌, Option, none, some, Error, plain_error, Outcome, ok, threw, leb, ltb, str_eq, show,
  template, if◌then◌else◌,
}
use ai_distributed_job_platf.Models.Json.{Json}
use ai_distributed_job_platf.Models.Job.{
  Job, HistoryEntry, Status, queued, processing, completed, retrying, dead_letter, cancelled,
  status_eq, push_history, saved_status,
}
use ai_distributed_job_platf.Services.{Services}
use ai_distributed_job_platf.Services.World.{
  World, M, pure, then_with, ◌>>=◌, ◌>>◌, with_jobs, read_jobs, publish_event, job_started,
  job_completed, job_retrying, job_dlq, job_cancelled,
}
use ai_distributed_job_platf.Queue.{
  push_job_to_queue, push_to_delayed_queue, claim_next_job, promote_due_delayed_jobs,
}
use ai_distributed_job_platf.JobHandlers.{get_handler}

abbrev pub base_delay_ms : ℕ
base_delay_ms = 2000

abbrev pub max_delay_ms : ℕ
max_delay_ms = 60000

abbrev pub lock_ttl_ms : ℕ
lock_ttl_ms = 30000

-- `BASE_DELAY_MS * Math.pow(2, attempts - 1)`; the power is 1/2 if no attempt was made.
pub delay_ms : ℕ → ℕ
delay_ms zero = base_delay_ms / 2
delay_ms (suc n) = base_delay_ms * 2 ^ n

unfoldable pub compute_backoff_ms : ℕ → ℕ
unfolding delay_ms
compute_backoff_ms attempts = min (delay_ms attempts) max_delay_ms

-- Equality of two owners of a lock, `null` included.
abbrev pub owner_eq : Option String → Option String → Bool
owner_eq none none = true
owner_eq (some a) (some b) = str_eq a b
owner_eq none (some b) = false
owner_eq (some a) none = false

abbrev pub entry : Status → ℕ → String → String → HistoryEntry
entry status now worker_id note = record {
  status = status;
  timestamp = now;
  worker_id = some worker_id;
  note = some note;
}

-- The updates that the callers of `finalizeJob` pass; each releases the lock.
abbrev pub set_failed : Status → String → Job → Job
set_failed status message job = record job {
  status = status;
  error = some message;
  locked_by = none;
  lock_expires_at = none;
}

abbrev pub set_completed : Json → ℕ → Job → Job
set_completed result now job = record job {
  status = completed;
  result = some result;
  completed_at = some now;
  locked_by = none;
  lock_expires_at = none;
}

abbrev pub set_cancelled : Job → Job
set_cancelled job = record job { status = cancelled; locked_by = none; lock_expires_at = none }

-- `err.retryable === false`.
abbrev pub is_non_retryable : Option Bool → Bool
is_non_retryable (some false) = true
is_non_retryable _ = false

abbrev pub dead_letter_reason : Job → Error → String
dead_letter_reason job err =
    if is_non_retryable err.retryable
    then template (
        "Non-retryable error on attempt "
        ∷ show job.attempts
        ∷ "/"
        ∷ show job.max_attempts
        ∷ ": "
        ∷ err.message
        ∷ [])
    else template (
        "Exhausted "
        ∷ show job.attempts
        ∷ "/"
        ∷ show job.max_attempts
        ∷ " attempts: "
        ∷ err.message
        ∷ [])

abbrev pub retry_note : Job → Error → String
retry_note job err = template (
    "Attempt "
    ∷ show job.attempts
    ∷ "/"
    ∷ show job.max_attempts
    ∷ " failed: "
    ∷ err.message
    ∷ ". Retrying in "
    ∷ show (compute_backoff_ms job.attempts)
    ∷ "ms"
    ∷ [])

module _ ⦃s : Services⦄ where
  unfoldable pub finalize_job : ℕ → Option String → (Job → Job) → HistoryEntry → M (Option Job)
  finalize_job job_id expected_owner updates history_entry = with_jobs (
      s.find_one_and_update job_id (λ d. owner_eq d.locked_by expected_owner)
        (λ d. push_history history_entry (updates d)))

  -- What follows a write to the job: nothing, if it did not land.
  abbrev pub if_landed : Option Job → M (Unit {0}) → M (Unit {0})
  if_landed none k = pure tt
  if_landed (some _) k = k

  unfoldable pub give_up : String → ℕ → ℕ → Job → Error → Option String → M (Unit {0})
  give_up worker_id now job_id job err expected_owner = do
    updated ←
        finalize_job job_id expected_owner (set_failed dead_letter err.message)
          (entry dead_letter now worker_id (dead_letter_reason job err))
    if_landed updated (publish_event (job_dlq job_id job.type_name job.attempts err.message))

  unfoldable pub schedule_retry : String → ℕ → ℕ → Job → Error → Option String → M (Unit {0})
  schedule_retry worker_id now job_id job err expected_owner = do
    let backoff_ms = compute_backoff_ms job.attempts
    let ready_at = now + backoff_ms
    updated ←
        finalize_job job_id expected_owner (set_failed retrying err.message)
          (entry retrying now worker_id (retry_note job err))
    if_landed updated (do
      push_to_delayed_queue job_id ready_at
      publish_event
          (job_retrying job_id job.type_name job.attempts job.max_attempts backoff_ms err.message))

  -- `handleFailure`.
  unfoldable pub handle_failure : String → ℕ → ℕ → Job → Error → Option String → M (Unit {0})
  unfolding give_up schedule_retry
  handle_failure worker_id now job_id job err expected_owner =
      let exhausted = leb job.max_attempts job.attempts in
      let non_retryable = is_non_retryable err.retryable in
      if exhausted || non_retryable
      then give_up worker_id now job_id job err expected_owner
      else schedule_retry worker_id now job_id job err expected_owner
