-- ===== src/Jobs/Cancel.antt =====
-- Cancelling a job that has not ended (modules/jobs/jobs.controller.js, `cancelJob`).
use ai_distributed_job_platf.Prelude.{
  ℕ, ◌≡◌, ◌⊎◌, inl, inr, refl, ap, ◌∙◌, true, false, none, some, ok, ◌==◌, if◌then◌else◌, arith,
  any, ◌||◌,
}
use ai_distributed_job_platf.Models.Job.{Job, Status, status_eq, queued, processing, retrying}
use ai_distributed_job_platf.Services.{Services}
use ai_distributed_job_platf.Services.Updates.{update-hit, update-other}
use ai_distributed_job_platf.Services.World.{World, document, SameButFor, SameQueues}
use ai_distributed_job_platf.Queue.{remove_job_from_queue, remove_job_from_delayed_queue}
use ai_distributed_job_platf.Jobs.{
  Response, respond, with_message, is_terminal, cancel_waiting, request_cancellation,
}
use ai_distributed_job_platf.Jobs.Handlers.{
  cancel_in_queue, running_message, cancel_running, cancel_owned, cancel_job,
}

waiting_open :
    (status : Status) → (status ≡ queued) ⊎ (status ≡ retrying) → is_terminal status ≡ false
unfolding is_terminal any
waiting_open status (inl e) = ap is_terminal e
waiting_open status (inr e) = ap is_terminal e

running_open : (status : Status) → status ≡ processing → is_terminal status ≡ false
unfolding is_terminal any
running_open status e = ap is_terminal e

module _ ⦃s : Services⦄ (now job_id : ℕ) (w : World) where
  -- What the branch for waiting jobs does to the stored document `stored`, whatever the document
  -- `job` in memory says.
  pub record Withdrawn (stored : Job) (w' : World) : Type 0 where
    pub document' : document job_id w' ≡ some (cancel_waiting now stored)
    pub others : SameButFor job_id w w'
    pub queue : (n : ℕ) → s.zscore n w'.queue ≡ (if job_id == n then none else s.zscore n w.queue)
    pub delayed :
        (n : ℕ) → s.zscore n w'.delayed ≡ (if job_id == n then none else s.zscore n w.delayed)
    pub redis_up : w'.redis_up ≡ w.redis_up

  pub cancel_in_queue-Withdrawn :
      (job stored : Job)
      → document job_id w ≡ some stored
      → w.redis_up ≡ true
      → ((cancel_in_queue now job_id job w).0
          ≡ ok (respond 200 (with_message "Job cancelled" job_id (cancel_waiting now job))))
        × Withdrawn stored (cancel_in_queue now job_id job w).1
  unfolding cancel_in_queue remove_job_from_queue remove_job_from_delayed_queue
  cancel_in_queue-Withdrawn job stored here up =
      let hit = update-hit job_id (λ _. true) (cancel_waiting now) w.jobs (rw here refl) in
      rw up (
        refl,
        record {
          document' = hit.1 ∙ rw here refl;
          others = λ j d. update-other job_id (λ _. true) (cancel_waiting now) w.jobs j d;
          queue = λ n. s.zscore-zrem job_id n w.queue;
          delayed = λ n. s.zscore-zrem job_id n w.delayed;
          redis_up = refl;
        },
      )

  cancel_owned-waiting :
      (job : Job)
      → (job.status ≡ queued) ⊎ (job.status ≡ retrying)
      → cancel_owned now job_id job w ≡ cancel_in_queue now job_id job w
  unfolding cancel_owned
  cancel_owned-waiting job waits =
      let open' : is_terminal job.status ≡ false = waiting_open job.status waits in
      let queued' : (status_eq job.status queued || status_eq job.status retrying) ≡ true =
        ground arith in
      rw (open', queued')

  cancel_owned-running :
      (job : Job)
      → job.status ≡ processing
      → cancel_owned now job_id job w ≡ cancel_running now job_id job w
  unfolding cancel_owned
  cancel_owned-running job runs =
      let open' : is_terminal job.status ≡ false = running_open job.status runs in
      let queued' : (status_eq job.status queued || status_eq job.status retrying) ≡ false =
        ap (λ status. status_eq status queued || status_eq status retrying) runs in
      let running' : status_eq job.status processing ≡ true =
        ap (λ status. status_eq status processing) runs in
      rw (open', queued', running')

  module _ (user_id : ℕ) (job : Job) (here : document job_id w ≡ some job)
      (own : job.user_id ≡ user_id) where
    cancel_job-own : cancel_job now user_id job_id w ≡ cancel_owned now job_id job w
    unfolding cancel_job
    cancel_job-own =
        let same : (job.user_id == user_id) ≡ true = ground arith in rw here (rw same refl)

    -- A QUEUED or RETRYING job of the user is cancelled at once, when Redis answers: it is CANCELLED
    -- and in neither queue, the answer is 200, and all other documents and queue entries stay.
    pub cancel_job-waiting :
        (job.status ≡ queued) ⊎ (job.status ≡ retrying)
        → w.redis_up ≡ true
        → ((cancel_job now user_id job_id w).0
            ≡ ok (respond 200 (with_message "Job cancelled" job_id (cancel_waiting now job))))
          × Withdrawn job (cancel_job now user_id job_id w).1
    cancel_job-waiting waits up =
        rw (cancel_job-own ∙ cancel_owned-waiting job waits)
          (cancel_in_queue-Withdrawn job job here up)

    -- A PROCESSING job of the user is only marked: the answer is 202, the document gets the flag and
    -- a history entry, and keeps its status and its lock; the queues and the other documents stay.
    pub cancel_job-running :
        job.status ≡ processing
        → (answer : Response) × ((cancel_job now user_id job_id w).0 ≡ ok answer)
          × (answer.status ≡ 202)
          × (document job_id (cancel_job now user_id job_id w).1
              ≡ some (request_cancellation now processing job))
          × SameButFor job_id w (cancel_job now user_id job_id w).1
          × SameQueues w (cancel_job now user_id job_id w).1
    unfolding cancel_running
    cancel_job-running runs =
        let change = request_cancellation now job.status in
        let hit = update-hit job_id (λ _. true) change w.jobs (rw here refl) in
        rw (cancel_job-own ∙ cancel_owned-running job runs) (
          respond 202
              (with_message running_message job_id (request_cancellation now job.status job)),
          refl,
          refl,
          hit.1 ∙ rw here (ap (λ status. some (request_cancellation now status job)) runs),
          λ j d. update-other job_id (λ _. true) change w.jobs j d,
          record { queue = refl; delayed = refl; redis_up = refl },
        )
