-- ===== src/Jobs/Handlers.antt =====
-- src/modules/jobs/jobs.controller.js: `submitJob`, `getJobStatus` and `cancelJob`.
use ai_distributed_job_platf.Prelude.{
  ℕ, String, true, ◌||◌, [], ◌∷◌, Option, none, some, ◌==◌, template, if◌then◌else◌,
}
use ai_distributed_job_platf.Models.Job.{Job, queued, processing, retrying, status_eq, status_text}
use ai_distributed_job_platf.Services.{Services}
use ai_distributed_job_platf.Services.World.{
  M, pure, throw, ◌>>=◌, ◌>>◌, with_jobs, read_jobs, publish_event, job_created, job_cancelled,
  job_cancellation_requested,
}
use ai_distributed_job_platf.Queue.{
  push_job_to_queue, push_to_delayed_queue, remove_job_from_queue, remove_job_from_delayed_queue,
}
use ai_distributed_job_platf.Jobs.{
  Response, respond, error, already_submitted, submitted, job_found, with_message, Submission,
  present, is_redis_healthy, new_job, submitted_message, duplicate_key, is_terminal, cancel_waiting,
  request_cancellation,
}

abbrev pub running_message : String
running_message =
    "Cancellation requested — job is currently processing and will be cancelled once the current attempt finishes"

module _ ⦃s : Services⦄ where
  -- The delayed queue for a job with a time in the future, the main queue for any other.
  abbrev pub enqueue : ℕ → ℕ → Job → Option ℕ → M (Unit {0})
  enqueue now job_id job none = push_job_to_queue now job_id job.priority
  enqueue now job_id job (some t) = push_to_delayed_queue job_id t

  -- What follows `Job.create`: a refused document is a thrown duplicate-key error.
  abbrev pub submit_created : ℕ → Job → Option ℕ → M Response
  submit_created now job none = throw duplicate_key
  submit_created now job (some job_id) = do
    enqueue now job_id job job.scheduled_for
    publish_event (job_created job_id job.user_id job.type_name job.priority job.scheduled_for)
    pure (
        respond 201
          (submitted (submitted_message job.scheduled_for) job_id job.status job.scheduled_for))

  abbrev pub submit_unless_found : ℕ → Job → Option (ℕ × Job) → M Response
  submit_unless_found now job (some (job_id, existing)) =
      pure (respond 200 (already_submitted job_id existing))
  submit_unless_found now job none = do
    job_id ← with_jobs (s.create job)
    submit_created now job job_id

  -- The part of `submitJob` behind the check of the fields.
  abbrev pub submit_complete : ℕ → Option String → Job → M Response
  submit_complete now pong job =
      if is_redis_healthy pong
      then (do
        existing ← read_jobs (s.find_by_key job.idempotency_key)
        submit_unless_found now job existing)
      else pure (respond 503 (error "Queue temporarily unavailable, please retry"))

  abbrev pub submit_fields :
      (ℕ → String) → ℕ → Option String → ℕ → Submission → Option String → Option String → M Response
  submit_fields to_iso_string now pong user_id r (some type_name) (some key) =
      submit_complete now pong (new_job to_iso_string now user_id type_name key r)
  submit_fields to_iso_string now pong user_id r (some type_name) none =
      pure (respond 400 (error "type and idempotencyKey are required"))
  submit_fields to_iso_string now pong user_id r none key =
      pure (respond 400 (error "type and idempotencyKey are required"))

  -- `POST /api/jobs`. `pong` is what Redis answers to the health check; nothing of other processes
  -- happens in between.
  unfoldable pub submit_job : (ℕ → String) → ℕ → Option String → ℕ → Submission → M Response
  submit_job to_iso_string now pong user_id r =
      submit_fields to_iso_string now pong user_id r (present r.type_name)
        (present r.idempotency_key)

  -- The two checks with which the other handlers begin, and what follows them.
  abbrev pub for_owner : ℕ → ℕ → (Job → M Response) → Option Job → M Response
  for_owner user_id job_id k none = pure (respond 404 (error "Job not found"))
  for_owner user_id job_id k (some job) =
      if job.user_id == user_id
      then k job
      else pure (respond 403 (error "You do not have access to this job"))

  -- `GET /api/jobs/:id`.
  unfoldable pub get_job_status : ℕ → ℕ → M Response
  get_job_status user_id job_id = do
    job ← read_jobs (s.find_by_id job_id)
    for_owner user_id job_id (λ job. pure (respond 200 (job_found job_id job))) job

  -- `job.save()` after a change that is made of the loaded document.
  abbrev pub save : ℕ → (Job → Job) → M (Unit {0})
  save job_id change =
      with_jobs (λ jobs. (tt, (s.find_one_and_update job_id (λ _. true) change jobs).1))

  -- The branch for a job that waits in a queue.
  unfoldable pub cancel_in_queue : ℕ → ℕ → Job → M Response
  cancel_in_queue now job_id job = do
    removed ← remove_job_from_queue job_id
    removed_delayed ← remove_job_from_delayed_queue job_id
    save job_id (cancel_waiting now)
    publish_event (job_cancelled job_id queued)
    pure (respond 200 (with_message "Job cancelled" job_id (cancel_waiting now job)))

  -- The branch for a job whose handler is running.
  unfoldable pub cancel_running : ℕ → ℕ → Job → M Response
  cancel_running now job_id job = do
    save job_id (request_cancellation now job.status)
    publish_event (job_cancellation_requested job_id)
    pure (
        respond 202 (with_message running_message job_id (request_cancellation now job.status job)))

  -- The checks on the status.
  unfoldable pub cancel_owned : ℕ → ℕ → Job → M Response
  cancel_owned now job_id job =
      if is_terminal job.status
      then pure (
          respond 409 (
            error
              (template ("Cannot cancel a job that is already " ∷ status_text job.status ∷ []))))
      else if status_eq job.status queued || status_eq job.status retrying
      then cancel_in_queue now job_id job
      else if status_eq job.status processing
      then cancel_running now job_id job
      else pure (
          respond 409
            (error (template ("Cannot cancel a job in status " ∷ status_text job.status ∷ []))))

  -- `POST /api/jobs/:id/cancel`.
  unfoldable pub cancel_job : ℕ → ℕ → ℕ → M Response
  cancel_job now user_id job_id = do
    job ← read_jobs (s.find_by_id job_id)
    for_owner user_id job_id (cancel_owned now job_id) job
