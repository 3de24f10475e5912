-- ===== src/Worker/Failure.antt =====
-- What becomes of a job whose attempt failed (worker/worker.js, `handleFailure`).
use ai_distributed_job_platf.Prelude.{
  ℕ, ◌+◌, ◌≤◌, ◌<◌, ◌≡◌, ◌≢◌, ◌⊎◌, inl, inr, refl, sym, ap, ◌∙◌, String, true, false, none, [], ◌∷◌,
  ◌++◌, Option, some, Error, ok, threw, ◌==◌, if◌then◌else◌, Bool-cases, arith,
}
use ai_distributed_job_platf.Models.Job.{Job, HistoryEntry, retrying, dead_letter, push_history}
use ai_distributed_job_platf.Services.{Services}
use ai_distributed_job_platf.Services.World.{
  World, job_dlq, job_retrying, redis_error, document, SameButFor, SameQueues, Untouched,
}
use ai_distributed_job_platf.Services.Updates.{update-other}
use ai_distributed_job_platf.Queue.{push_to_delayed_queue}
use ai_distributed_job_platf.Worker.{
  compute_backoff_ms, owner_eq, entry, set_failed, dead_letter_reason, retry_note, finalize_job,
  handle_failure, give_up, schedule_retry,
}
use ai_distributed_job_platf.Worker.Fencing.{
  is_owned, Written, finalize_job-Written, finalize_job-Untouched,
}
use ai_distributed_job_platf.Worker.Decisions.{
  dead_lettered, gives_up, gives_up_no, gives_up_yes, set_retrying,
}

module _ ⦃s : Services⦄ (worker_id : String) (now job_id : ℕ) (job : Job) (err : Error)
    (expected_owner : Option String) (w : World) where
  -- If the lock has another owner by now, or the job is gone, a failure changes nothing: no
  -- document, no queue entry, no event, so a retry is never scheduled twice.
  pub handle_failure-stale :
      is_owned expected_owner (document job_id w) ≡ false
      → ((handle_failure worker_id now job_id job err expected_owner w).0 ≡ ok tt)
        × Untouched w (handle_failure worker_id now job_id job err expected_owner w).1
  unfolding handle_failure
  handle_failure-stale h = elim (Bool-cases (gives_up job err)) [
    | inl dead ↦
        let (answer, untouched) =
          finalize_job-Untouched job_id expected_owner (set_failed dead_letter err.message)
            (entry dead_letter now worker_id (dead_letter_reason job err)) w h in
        rw dead (rw answer (refl, untouched))
    | inr retry ↦
        let (answer, untouched) =
          finalize_job-Untouched job_id expected_owner (set_failed retrying err.message)
            (entry retrying now worker_id (retry_note job err)) w h in
        rw retry (rw answer (refl, untouched))
  ]

  give_up-SameButFor : SameButFor job_id w (give_up worker_id now job_id job err expected_owner w).1
  unfolding give_up finalize_job
  give_up-SameButFor j apart = ground (
    arith,
    update-other job_id (λ d. owner_eq d.locked_by expected_owner)
        (dead_lettered worker_id now job err) w.jobs j apart,
  )

  schedule_retry-SameButFor :
      SameButFor job_id w (schedule_retry worker_id now job_id job err expected_owner w).1
  unfolding schedule_retry finalize_job push_to_delayed_queue
  schedule_retry-SameButFor j apart = ground (
    arith,
    update-other job_id (λ d. owner_eq d.locked_by expected_owner)
        (set_retrying worker_id now job err) w.jobs j apart,
  )

  -- Handling a failure never touches another job's document, whoever holds the locks.
  pub handle_failure-SameButFor :
      SameButFor job_id w (handle_failure worker_id now job_id job err expected_owner w).1
  unfolding handle_failure
  handle_failure-SameButFor j apart = elim (Bool-cases (gives_up job err)) [
    | inl dead ↦ rw dead (give_up-SameButFor j apart)
    | inr retry ↦ rw retry (schedule_retry-SameButFor j apart)
  ]

  module _ (d : Job) (here : document job_id w ≡ some d)
      (owned : owner_eq d.locked_by expected_owner ≡ true) where
    landed :
        (updates : Job → Job) (e : HistoryEntry)
        → Written job_id
            (push_history e (updates d))
            w
            (finalize_job job_id expected_owner updates e w)
    landed updates e = finalize_job-Written job_id expected_owner updates e w d here owned

    -- If the lock still has the expected owner, and the attempts are used up or the error is marked
    -- as not retryable, the job becomes DEAD_LETTER with the error's message and no lock, one event
    -- tells so, and the queues and the other documents stay as they were.
    pub handle_failure-dead_letter :
        (job.max_attempts ≤ job.attempts) ⊎ (err.retryable ≡ some false)
        → let (r, w') = handle_failure worker_id now job_id job err expected_owner w in
          (r ≡ ok tt)
          × (document job_id w' ≡ some (dead_lettered worker_id now job err d))
          × SameButFor job_id w w'
          × SameQueues w w'
          × (w'.events ≡ w.events ++ job_dlq job_id job.type_name job.attempts err.message ∷ [])
    unfolding handle_failure
    handle_failure-dead_letter h =
        let l =
          landed (set_failed dead_letter err.message)
            (entry dead_letter now worker_id (dead_letter_reason job err)) in
        rw (gives_up_yes job err h) (
          rw l.answer (
            refl,
            l.stored,
            l.others,
            record {
              queue = l.queues.queue;
              delayed = l.queues.delayed;
              redis_up = l.queues.redis_up;
            },
            ap (λ es. es ++ job_dlq job_id job.type_name job.attempts err.message ∷ []) l.events,
          ))

    -- If the lock still has the expected owner, attempts are left, the error is not marked as not
    -- retryable and Redis answers, the job becomes RETRYING with no lock, it is put into the delayed
    -- queue with the end of its backoff as the ready time, and one event tells so. The main queue,
    -- the other members of the delayed queue and the other documents stay as they were.
    pub handle_failure-retry :
        job.attempts < job.max_attempts
        → err.retryable ≢ some false
        → w.redis_up ≡ true
        → let (r, w') = handle_failure worker_id now job_id job err expected_owner w in
          (r ≡ ok tt)
          × (document job_id w' ≡ some (set_retrying worker_id now job err d))
          × SameButFor job_id w w'
          × (w'.queue ≡ w.queue)
          × (w'.redis_up ≡ w.redis_up)
          × ((n : ℕ)
              → s.zscore n w'.delayed ≡ (
                  if job_id == n
                  then some (now + compute_backoff_ms job.attempts)
                  else s.zscore n w.delayed))
          × (w'.events
              ≡ w.events
                ++ job_retrying job_id job.type_name job.attempts job.max_attempts
                    (compute_backoff_ms job.attempts)
                    err.message
                  ∷ [])
    unfolding handle_failure push_to_delayed_queue
    handle_failure-retry left retryable up =
        let l =
          landed (set_failed retrying err.message)
            (entry retrying now worker_id (retry_note job err)) in
        rw (gives_up_no job err left retryable) (
          rw l.answer (
            rw (l.queues.redis_up ∙ up) (
              refl,
              l.stored,
              l.others,
              l.queues.queue,
              sym up,
              λ n.
                  s.zscore-zadd (now + compute_backoff_ms job.attempts) job_id n _
                  ∙ ap
                      (λ z.
                        if job_id == n
                        then some (now + compute_backoff_ms job.attempts)
                        else s.zscore n z)
                      l.queues.delayed,
              ap
                  (λ es.
                    es
                    ++ job_retrying job_id job.type_name job.attempts job.max_attempts
                        (compute_backoff_ms job.attempts) err.message
                      ∷ [])
                  l.events,
            )))

    -- If the lock has the expected owner, attempts are left, the error is not marked as not
    -- retryable and Redis does not answer, the failure handler throws. The job is then RETRYING
    -- with no lock, and neither queue has changed.
    pub handle_failure-lost :
        job.attempts < job.max_attempts
        → err.retryable ≢ some false
        → w.redis_up ≡ false
        → let (r, w') = handle_failure worker_id now job_id job err expected_owner w in
          (r ≡ threw redis_error)
          × (document job_id w' ≡ some (set_retrying worker_id now job err d))
          × SameQueues w w'
    unfolding handle_failure push_to_delayed_queue
    handle_failure-lost left retryable down =
        let l =
          landed (set_failed retrying err.message)
            (entry retrying now worker_id (retry_note job err)) in
        rw (gives_up_no job err left retryable)
          (rw l.answer (rw (l.queues.redis_up ∙ down) (refl, l.stored, l.queues)))

    -- Once the expected owner's failure is handled, the job is locked by nobody, also if Redis failed
    -- on the way.
    pub handle_failure-released :
        (d' : Job) × (document job_id
            (handle_failure worker_id now job_id job err expected_owner w).1
          ≡ some d')
        × (d'.locked_by ≡ none)
    unfolding handle_failure push_to_delayed_queue
    handle_failure-released = elim (Bool-cases (gives_up job err)) [
      | inl dead ↦
          let l =
            landed (set_failed dead_letter err.message)
              (entry dead_letter now worker_id (dead_letter_reason job err)) in
          (dead_lettered worker_id now job err d, rw dead (rw l.answer l.stored), refl)
      | inr retry ↦
          let l =
            landed (set_failed retrying err.message)
              (entry retrying now worker_id (retry_note job err)) in
          (
            set_retrying worker_id now job err d,
            rw retry (
                rw l.answer (elim (Bool-cases w.redis_up) [
                  | inl up ↦ rw (l.queues.redis_up ∙ up) l.stored
                  | inr down ↦ rw (l.queues.redis_up ∙ down) l.stored
                ])),
            refl,
          )
    ]
