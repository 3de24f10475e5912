-- ===== src/Worker/Loops.antt =====
-- src/worker/worker.js: the interval callbacks and one round of a lane.
use ai_distributed_job_platf.Prelude.{
  ℕ, String, Bool, true, false, ◌&&◌, [], ◌∷◌, Option, none, some, Error, plain_error, ltb,
  template,
}
use ai_distributed_job_platf.Models.Job.{
  Job, queued, processing, status_eq, push_history, saved_status,
}
use ai_distributed_job_platf.Services.{Services}
use ai_distributed_job_platf.Services.World.{M, pure, ◌>>=◌, ◌>>◌, with_jobs, read_jobs, for_each}
use ai_distributed_job_platf.Queue.{push_job_to_queue, claim_next_job, promote_due_delayed_jobs}
use ai_distributed_job_platf.Worker.{entry, handle_failure}
use ai_distributed_job_platf.Worker.Process.{Handlers, process_job}

-- What `job.save()` in `promoteReadyJobs` makes of the stored document.
abbrev pub save_promoted : String → ℕ → Job → Job → Job
save_promoted worker_id now job stored =
    push_history (entry queued now worker_id "Promoted from delayed queue, ready for retry")
      (record stored { status = saved_status job.status queued stored.status })

-- `{ status: "PROCESSING", lockExpiresAt: { $lt: now } }`.
abbrev pub is_expired : ℕ → Option ℕ → Bool
is_expired now none = false
is_expired now (some expires) = ltb expires now

abbrev pub is_stale : ℕ → Job → Bool
is_stale now job = status_eq job.status processing && is_expired now job.lock_expires_at

-- A worker id as a template string writes it.
abbrev pub owner_text : Option String → String
owner_text none = "null"
owner_text (some worker_id) = worker_id

abbrev pub lock_expired : Option String → Error
lock_expired stale_owner = plain_error (
    template
      ("Worker " ∷ owner_text stale_owner ∷ " did not complete job before lock expired" ∷ []))

module _ ⦃s : Services⦄ where
  abbrev pub promote_found : String → ℕ → ℕ → Option Job → M (Unit {0})
  promote_found worker_id now job_id none = pure tt
  promote_found worker_id now job_id (some job) = do
    with_jobs λ jobs.
        (tt, (s.find_one_and_update job_id (λ _. true) (save_promoted worker_id now job) jobs).1)
    push_job_to_queue now job_id job.priority

  -- The body of the loop of `promoteReadyJobs`.
  unfoldable pub promote_job : String → ℕ → ℕ → M (Unit {0})
  promote_job worker_id now job_id = do
    job ← read_jobs (s.find_by_id job_id)
    promote_found worker_id now job_id job

  unfoldable pub promote_ready_jobs : String → ℕ → M (Unit {0})
  promote_ready_jobs worker_id now = do
    promoted_ids ← promote_due_delayed_jobs now
    for_each (promote_job worker_id now) promoted_ids

  -- The body of the loop of `recoverStaleJobs`, for a document that the scan found.
  unfoldable pub recover_job : String → ℕ → ℕ × Job → M (Unit {0})
  recover_job worker_id now (job_id, job) =
      let stale_owner = job.locked_by in
      handle_failure worker_id now job_id job (lock_expired stale_owner) stale_owner

  unfoldable pub recover_stale_jobs : String → ℕ → M (Unit {0})
  recover_stale_jobs worker_id now = do
    stale_jobs ← read_jobs (s.find (is_stale now))
    for_each (recover_job worker_id now) stale_jobs

  abbrev claim_found : String → ℕ → ℕ → Handlers → Option ℕ → M (Unit {0})
  claim_found worker_id now later handlers none = pure tt
  claim_found worker_id now later handlers (some job_id) =
      process_job worker_id now later handlers job_id

  -- One round of the endless loop of `runLane`.
  unfoldable pub lane_round : String → ℕ → ℕ → Handlers → M (Unit {0})
  lane_round worker_id now later handlers = do
    job_id ← claim_next_job
    claim_found worker_id now later handlers job_id
