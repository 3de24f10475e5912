-- ===== src/Worker/Process.antt =====
-- src/worker/worker.js, `processJob`.
use ai_distributed_job_platf.Prelude.{
  ℕ, ◌+◌, max, String, Bool, true, false, [], ◌∷◌, Option, none, some, plain_error, Outcome, ok,
  threw, show, template, if◌then◌else◌,
}
use ai_distributed_job_platf.Models.Json.{Json}
use ai_distributed_job_platf.Models.Job.{
  Job, processing, completed, cancelled, push_history, saved_status,
}
use ai_distributed_job_platf.Services.{Services}
use ai_distributed_job_platf.Services.World.{
  M, pure, ◌>>=◌, ◌>>◌, with_jobs, read_jobs, publish_event, job_started, job_completed,
  job_cancelled,
}
use ai_distributed_job_platf.JobHandlers.{get_handler}
use ai_distributed_job_platf.Worker.{
  lock_ttl_ms, entry, set_completed, set_cancelled, finalize_job, if_landed, handle_failure,
}

abbrev pub lock_expiry : ℕ → Job → ℕ
lock_expiry now job = now + max lock_ttl_ms (job.timeout_ms + 5000)

-- The document in memory after the assignments before `job.save()`.
abbrev pub claimed : String → ℕ → Job → Job
claimed worker_id now job =
    push_history
      (entry processing now worker_id (template ("Attempt " ∷ show (job.attempts + 1) ∷ [])))
      (record job {
        status = processing;
        locked_by = some worker_id;
        lock_expires_at = some (lock_expiry now job);
        started_at = some now;
        attempts = job.attempts + 1;
      })

-- What `job.save()` makes of the stored document: the changed paths get the values of the loaded
-- document `job`, the others stay.
abbrev pub save_claim : String → ℕ → Job → Job → Job
save_claim worker_id now job stored =
    push_history
      (entry processing now worker_id (template ("Attempt " ∷ show (job.attempts + 1) ∷ [])))
      (record stored {
        status = saved_status job.status processing stored.status;
        locked_by = some worker_id;
        lock_expires_at = some (lock_expiry now job);
        started_at = some now;
        attempts = job.attempts + 1;
      })

-- How `Promise.race` ended: `none` if the timer came first, else what the handler settled with.
abbrev pub race : ℕ → Option (Outcome Json) → Outcome Json
race timeout_ms none =
    threw (plain_error (template ("Job timed out after " ∷ show timeout_ms ∷ "ms" ∷ [])))
race timeout_ms (some settled) = settled

-- The behaviour of the handlers: from the handler's name and the payload to how its race ends.
abbrev pub Handlers : Type 0
Handlers = String → Json → Option (Outcome Json)

abbrev pub run_found : Handlers → Job → Outcome String → Outcome Json
run_found handlers job (threw err) = threw err
run_found handlers job (ok handler) = race job.timeout_ms (handlers handler job.payload)

-- The `try` block up to the result: a throw goes to the `catch` block.
unfoldable pub run_handler : Handlers → Job → Outcome Json
run_handler handlers job = run_found handlers job (get_handler job.type_name)

-- `freshJob?.cancellationRequested === true`.
abbrev pub is_cancellation_requested : Option Job → Bool
is_cancellation_requested none = false
is_cancellation_requested (some job) = job.cancellation_requested

module _ ⦃s : Services⦄ where
  abbrev pub start_found : String → ℕ → ℕ → Option Job → M (Option Job)
  start_found worker_id now job_id none = pure none
  start_found worker_id now job_id (some job) = do
    with_jobs λ jobs.
        (tt, (s.find_one_and_update job_id (λ _. true) (save_claim worker_id now job) jobs).1)
    publish_event (job_started job_id job.type_name worker_id (job.attempts + 1))
    pure (some (claimed worker_id now job))

  -- Up to the handler: the result is the document in memory, or `none` if there is no such job.
  unfoldable pub start_attempt : String → ℕ → ℕ → M (Option Job)
  start_attempt worker_id now job_id = do
    job ← read_jobs (s.find_by_id job_id)
    start_found worker_id now job_id job

  -- After the handler resolved: the checkpoint has read whether cancellation was requested.
  unfoldable pub finish_resolved : String → ℕ → ℕ → Job → Json → Bool → M (Unit {0})
  finish_resolved worker_id now job_id job result was_cancelled =
      if was_cancelled
      then (do
        updated ←
            finalize_job job_id (some worker_id) set_cancelled
              (entry cancelled now worker_id "Cancellation honored after handler finished")
        if_landed updated (publish_event (job_cancelled job_id processing)))
      else (do
        updated ←
            finalize_job job_id (some worker_id) (set_completed result now)
              (entry completed now worker_id "Job completed successfully")
        if_landed updated (publish_event (job_completed job_id job.type_name job.attempts)))

  -- After the handler, on either way out of the `try` block. `job` is the document in memory.
  unfoldable pub finish_attempt : String → ℕ → ℕ → Job → Outcome Json → M (Unit {0})
  finish_attempt worker_id now job_id job (ok result) = do
    fresh_job ← read_jobs (s.find_by_id job_id)
    finish_resolved worker_id now job_id job result (is_cancellation_requested fresh_job)
  finish_attempt worker_id now job_id job (threw err) =
      handle_failure worker_id now job_id job err (some worker_id)

  abbrev finish_found : String → ℕ → Handlers → ℕ → Option Job → M (Unit {0})
  finish_found worker_id now handlers job_id none = pure tt
  finish_found worker_id now handlers job_id (some job) =
      finish_attempt worker_id now job_id job (run_handler handlers job)

  -- `processJob`, with nothing of other processes in between: it starts at `now` and its handler is
  -- settled at `later`.
  unfoldable pub process_job : String → ℕ → ℕ → Handlers → ℕ → M (Unit {0})
  process_job worker_id now later handlers job_id = do
    job ← start_attempt worker_id now job_id
    finish_found worker_id later handlers job_id job
