-- ===== src/Worker/Attempt.antt =====
-- One attempt at a job, before and after its handler (worker/worker.js, `processJob`).
use ai_distributed_job_platf.Prelude.{
  ℕ, ◌+◌, ◌≤◌, ◌≡◌, ◌⊎◌, refl, ap, ◌∙◌, String, Bool, true, false, [], ◌∷◌, ◌++◌, none, some,
  Outcome, ok, threw, str_eq_iff, arith,
}
use ai_distributed_job_platf.Models.Json.{Json}
use ai_distributed_job_platf.Models.Job.{
  Job, Status, processing, completed, cancelled, push_history, saved_status, status_eq_iff,
}
use ai_distributed_job_platf.Services.{Services}
use ai_distributed_job_platf.Services.Updates.{update-hit, update-other}
use ai_distributed_job_platf.Services.World.{
  World, document, SameButFor, SameQueues, Untouched, job_started, job_completed, job_cancelled,
}
use ai_distributed_job_platf.Worker.{entry, set_completed, set_cancelled, owner_eq}
use ai_distributed_job_platf.Worker.Process.{
  claimed, save_claim, start_attempt, finish_resolved, finish_attempt, is_cancellation_requested,
}
use ai_distributed_job_platf.Worker.Loops.{is_stale}
use ai_distributed_job_platf.Worker.Fencing.{is_owned, finalize_job-Untouched, finalize_job-Written}
use ai_distributed_job_platf.Worker.Failure.{handle_failure-stale}

pub saved_status_lem : (a b : Status) → saved_status a b a ≡ b
saved_status_lem a b = ground (arith, status_eq_iff a b)

save_claim_same :
    (worker_id : String) (now : ℕ) (job : Job)
    → save_claim worker_id now job job ≡ claimed worker_id now job
save_claim_same worker_id now job = rw (saved_status_lem job.status processing)

-- A recovery scan does not find a job as long as its handler may run: up to five seconds after its
-- timeout, and for thirty seconds in any case.
pub claimed_not_stale :
    (worker_id : String) (now t : ℕ) (job : Job)
    → (t ≤ now + job.timeout_ms + 5000) ⊎ (t ≤ now + 30000)
    → is_stale t (claimed worker_id now job) ≡ false
claimed_not_stale worker_id now t job h = ground arith

module _ ⦃s : Services⦄ (worker_id : String) (now job_id : ℕ) (w : World) where
  -- An id that is in no document starts nothing.
  start_attempt-missing :
      document job_id w ≡ none → start_attempt worker_id now job_id w ≡ (ok none, w)
  unfolding start_attempt
  start_attempt-missing gone = rw gone

  -- An attempt at a job that nobody else writes at the same time: the document becomes PROCESSING,
  -- locked by this worker, with one attempt more, and the event tells so; the queues and the other
  -- documents stay as they were.
  pub start_attempt_lem :
      (job : Job)
      → document job_id w ≡ some job
      → let (r, w') = start_attempt worker_id now job_id w in
        (r ≡ ok (some (claimed worker_id now job)))
        × (document job_id w' ≡ some (claimed worker_id now job))
        × SameButFor job_id w w'
        × SameQueues w w'
        × (w'.events
            ≡ w.events ++ job_started job_id job.type_name worker_id (job.attempts + 1) ∷ [])
  unfolding start_attempt
  start_attempt_lem job here =
      let hit =
        update-hit job_id (λ _. true) (save_claim worker_id now job) w.jobs (rw here refl) in
      rw here (
        refl,
        hit.1 ∙ rw here (ap some (save_claim_same worker_id now job)),
        λ j d. update-other job_id (λ _. true) (save_claim worker_id now job) w.jobs j d,
        record { queue = refl; delayed = refl; redis_up = refl },
        refl,
      )

  finish_resolved-stale :
      (job : Job) (result : Json) (was_cancelled : Bool)
      → is_owned (some worker_id) (document job_id w) ≡ false
      → ((finish_resolved worker_id now job_id job result was_cancelled w).0 ≡ ok tt)
        × Untouched w (finish_resolved worker_id now job_id job result was_cancelled w).1
  unfolding finish_resolved
  finish_resolved-stale job result true h =
      let (answer, untouched) =
        finalize_job-Untouched job_id (some worker_id) set_cancelled
          (entry cancelled now worker_id "Cancellation honored after handler finished") w h in
      rw answer (refl, untouched)
  finish_resolved-stale job result false h =
      let (answer, untouched) =
        finalize_job-Untouched job_id (some worker_id) (set_completed result now)
          (entry completed now worker_id "Job completed successfully") w h in
      rw answer (refl, untouched)

  -- If this worker no longer holds the lock when its handler is done, the attempt ends without any
  -- effect on documents, queues and events, whether the handler resolved, failed or timed out.
  pub finish_attempt-stale :
      (job : Job) (outcome : Outcome Json)
      → is_owned (some worker_id) (document job_id w) ≡ false
      → ((finish_attempt worker_id now job_id job outcome w).0 ≡ ok tt)
        × Untouched w (finish_attempt worker_id now job_id job outcome w).1
  unfolding finish_attempt
  finish_attempt-stale job (threw err) h =
      handle_failure-stale worker_id now job_id job err (some worker_id) w h
  finish_attempt-stale job (ok result) h =
      finish_resolved-stale job result (is_cancellation_requested (document job_id w)) h

  module _ (d : Job) (here : document job_id w ≡ some d)
      (owned : d.locked_by ≡ some worker_id) where
    owned_test : owner_eq d.locked_by (some worker_id) ≡ true
    owned_test = rw owned ((str_eq_iff worker_id worker_id).1 refl)

    -- The handler resolved and nobody asked to cancel: the job becomes COMPLETED with the result.
    pub finish_attempt-completed :
        (job : Job) (result : Json)
        → d.cancellation_requested ≡ false
        → let (r, w') = finish_attempt worker_id now job_id job (ok result) w in
          (r ≡ ok tt)
          × (document job_id w'
              ≡ some (
                  push_history
                    (entry completed now worker_id "Job completed successfully")
                    (set_completed result now d)))
          × SameButFor job_id w w'
          × SameQueues w w'
          × (w'.events ≡ w.events ++ job_completed job_id job.type_name job.attempts ∷ [])
    unfolding finish_attempt finish_resolved
    finish_attempt-completed job result wanted =
        let l =
          finalize_job-Written job_id (some worker_id) (set_completed result now)
            (entry completed now worker_id "Job completed successfully") w d here owned_test in
        rw (ap is_cancellation_requested here ∙ wanted) (
          rw l.answer (
            refl,
            l.stored,
            l.others,
            record {
              queue = l.queues.queue;
              delayed = l.queues.delayed;
              redis_up = l.queues.redis_up;
            },
            ap (λ es. es ++ job_completed job_id job.type_name job.attempts ∷ []) l.events,
          ))

    -- The handler resolved, but a cancellation was requested meanwhile: the job becomes CANCELLED,
    -- and the result is thrown away.
    pub finish_attempt-cancelled :
        (job : Job) (result : Json)
        → d.cancellation_requested ≡ true
        → let (r, w') = finish_attempt worker_id now job_id job (ok result) w in
          (r ≡ ok tt)
          × (document job_id w'
              ≡ some (
                  push_history
                    (entry cancelled now worker_id "Cancellation honored after handler finished")
                    (set_cancelled d)))
          × SameButFor job_id w w'
          × SameQueues w w'
          × (w'.events ≡ w.events ++ job_cancelled job_id processing ∷ [])
    unfolding finish_attempt finish_resolved
    finish_attempt-cancelled job result unwanted =
        let l =
          finalize_job-Written job_id (some worker_id) set_cancelled
            (entry cancelled now worker_id "Cancellation honored after handler finished") w d here
            owned_test in
        rw (ap is_cancellation_requested here ∙ unwanted) (
          rw l.answer (
            refl,
            l.stored,
            l.others,
            record {
              queue = l.queues.queue;
              delayed = l.queues.delayed;
              redis_up = l.queues.redis_up;
            },
            ap (λ es. es ++ job_cancelled job_id processing ∷ []) l.events,
          ))
