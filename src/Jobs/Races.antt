-- ===== src/Jobs/Races.antt =====
-- Cancellations that meet a worker (modules/jobs/jobs.controller.js, `cancelJob`, with
-- worker/worker.js, `processJob` and `promoteReadyJobs`).
use ai_distributed_job_platf.Prelude.{
  ℕ, ◌+◌, ◌<◌, ◌≡◌, ◌≢◌, inr, refl, ap, ◌∙◌, String, true, false, none, some, Error, ok, threw,
  str_eq_iff, ==_refl,
}
use ai_distributed_job_platf.Models.Json.{Json}
use ai_distributed_job_platf.Models.Job.{Job, processing, retrying, cancelled}
use ai_distributed_job_platf.Services.{Services}
use ai_distributed_job_platf.Services.World.{World, document}
use ai_distributed_job_platf.Queue.{compute_score}
use ai_distributed_job_platf.Worker.{compute_backoff_ms, owner_eq}
use ai_distributed_job_platf.Worker.Process.{finish_attempt}
use ai_distributed_job_platf.Worker.Loops.{promote_job}
use ai_distributed_job_platf.Worker.Attempt.{finish_attempt-cancelled}
use ai_distributed_job_platf.Worker.Failure.{handle_failure-retry}
use ai_distributed_job_platf.Worker.Promoting.{promoted, promote_job_lem}
use ai_distributed_job_platf.Jobs.{Response, cancel_waiting, request_cancellation}
use ai_distributed_job_platf.Jobs.Handlers.{cancel_job}
use ai_distributed_job_platf.Jobs.Cancel.{cancel_job-waiting, cancel_job-running}

module _ ⦃s : Services⦄ (worker_id : String) (job_id : ℕ) (job : Job) (w : World)
    (here : document job_id w ≡ some job) where
  -- Cooperative cancellation: if the owner of a job that this worker is processing cancels it, and
  -- the handler then resolves, the job ends CANCELLED, without a lock, and its result is not
  -- stored.
  pub cancel_job-honored :
      (now later : ℕ) (result : Json)
      → job.status ≡ processing
      → job.locked_by ≡ some worker_id
      → let w₁ = (cancel_job now job.user_id job_id w).1 in
        let w₂ = (finish_attempt worker_id later job_id job (ok result) w₁).1 in
        (d : Job) × (document job_id w₂ ≡ some d)
        × (d.status ≡ cancelled)
        × (d.locked_by ≡ none)
        × (d.result ≡ job.result)
  cancel_job-honored now later result runs locked =
      let (answer, _, _, marked, _, _) =
        cancel_job-running now job_id w job.user_id job here refl runs in
      let f =
        finish_attempt-cancelled worker_id later job_id (cancel_job now job.user_id job_id w).1
          (request_cancellation now processing job) marked locked job result refl in
      (_, f.1, refl, refl, refl)

  -- If the owner of a job that this worker is processing cancels it, which is answered with 202,
  -- and the handler then fails, with an error that may be retried and with attempts left, the
  -- cancellation is not honored: when Redis answers, the job becomes RETRYING and waits in the
  -- delayed queue.
  pub cancel_job-outlived :
      (now later : ℕ) (err : Error)
      → job.status ≡ processing
      → job.locked_by ≡ some worker_id
      → job.attempts < job.max_attempts
      → err.retryable ≢ some false
      → w.redis_up ≡ true
      → let (r, w₁) = cancel_job now job.user_id job_id w in
        let w₂ = (finish_attempt worker_id later job_id job (threw err) w₁).1 in
        (answer : Response) × (r ≡ ok answer)
        × (answer.status ≡ 202)
        × (d : Job) × (document job_id w₂ ≡ some d)
        × (d.status ≡ retrying)
        × (d.cancellation_requested ≡ true)
        × (s.zscore job_id w₂.delayed ≡ some (later + compute_backoff_ms job.attempts))
  unfolding finish_attempt
  cancel_job-outlived now later err runs locked left retryable up =
      let (answer, told, code, marked, _, queues) =
        cancel_job-running now job_id w job.user_id job here refl runs in
      let f =
        handle_failure-retry worker_id later job_id job err (some worker_id)
          (cancel_job now job.user_id job_id w).1 (request_cancellation now processing job) marked
          (ap (λ o. owner_eq o (some worker_id)) locked ∙ (str_eq_iff worker_id worker_id).1 refl)
          left retryable (queues.redis_up ∙ up) in
      (answer, told, code, _, f.1, refl, refl, f.5 job_id ∙ rw (==_refl job_id) refl)

  -- When Redis answers, a promotion that has already taken a RETRYING job out of the delayed queue
  -- goes on if the user cancels the job before its document is loaded: the CANCELLED job becomes
  -- QUEUED again and enters the main queue.
  pub cancel_job-promoted :
      (now later : ℕ)
      → job.status ≡ retrying
      → w.redis_up ≡ true
      → let w₁ = (cancel_job now job.user_id job_id w).1 in
        let w₂ = (promote_job worker_id later job_id w₁).1 in
        (document job_id w₁ ≡ some (cancel_waiting now job))
        × (document job_id w₂ ≡ some (promoted worker_id later (cancel_waiting now job)))
        × (s.zscore job_id w₂.queue ≡ some (compute_score job.priority later))
  cancel_job-promoted now later waits up =
      let (told, gone) = cancel_job-waiting now job_id w job.user_id job here refl (inr waits) up in
      let p =
        promote_job_lem worker_id later job_id (cancel_job now job.user_id job_id w).1
          (cancel_waiting now job) (gone.redis_up ∙ up) gone.document' in
      (gone.document', p.0, p.1)
