-- ===== src/Jobs/Submit.antt =====
-- Submitting a job (modules/jobs/jobs.controller.js, `submitJob`).
use ai_distributed_job_platf.Prelude.{
  ℕ, ◌≡◌, refl, ap, ◌∙◌, inl, inr, String, true, false, Option, none, some, ok, threw, ◌==◌,
  if◌then◌else◌, Option-cases, arith,
}
use ai_distributed_job_platf.Models.Job.{Job, Status}
use ai_distributed_job_platf.Services.{Services}
use ai_distributed_job_platf.Services.World.{World, document, redis_error}
use ai_distributed_job_platf.Queue.{compute_score, push_job_to_queue, push_to_delayed_queue}
use ai_distributed_job_platf.Jobs.{
  respond, already_submitted, submitted, Submission, present, future, is_redis_healthy, new_job,
  submitted_message,
}
use ai_distributed_job_platf.Jobs.Handlers.{enqueue, submit_job, submit_unless_found}

-- Where a new job waits: its score in the main queue and in the delayed queue.
abbrev pub main_score : ℕ → Job → Option ℕ → Option ℕ
main_score now job none = some (compute_score job.priority now)
main_score now job (some t) = none

-- The score of a job in a queue that it enters or not.
abbrev pub entered : Option ℕ → Option ℕ → Option ℕ
entered none old = old
entered (some score) old = some score

module _ ⦃s : Services⦄ where
  -- What the choice between the two queues does, when Redis answers.
  record Enqueued (now job_id : ℕ) (job : Job) (o : Option ℕ) (v v' : World) : Type 0 where
    queue :
        (n : ℕ)
        → s.zscore n v'.queue ≡ (
            if job_id == n
            then entered (main_score now job o) (s.zscore n v.queue)
            else s.zscore n v.queue)
    delayed :
        (n : ℕ)
        → s.zscore n v'.delayed
          ≡ (if job_id == n then entered o (s.zscore n v.delayed) else s.zscore n v.delayed)
    jobs : v'.jobs ≡ v.jobs

  enqueue-Enqueued :
      (now job_id : ℕ) (job : Job) (o : Option ℕ) (v : World)
      → v.redis_up ≡ true
      → ((enqueue now job_id job o v).0 ≡ ok tt)
        × Enqueued now job_id job o v (enqueue now job_id job o v).1
  unfolding push_job_to_queue push_to_delayed_queue
  enqueue-Enqueued now job_id job none v up = rw up (
    refl,
    record {
      queue = λ n. s.zscore-zadd (compute_score job.priority now) job_id n v.queue;
      delayed = λ n. ground arith;
      jobs = refl;
    },
  )
  enqueue-Enqueued now job_id job (some t) v up = rw up (
    refl,
    record {
      queue = λ n. ground arith;
      delayed = λ n. s.zscore-zadd t job_id n v.delayed;
      jobs = refl;
    },
  )

  pub enqueue-down :
      (now job_id : ℕ) (job : Job) (o : Option ℕ) (v : World)
      → v.redis_up ≡ false
      → enqueue now job_id job o v ≡ (threw redis_error, v)
  unfolding push_job_to_queue push_to_delayed_queue
  enqueue-down now job_id job none v down = rw down
  enqueue-down now job_id job (some t) v down = rw down

module _ ⦃s : Services⦄ (to_iso_string : ℕ → String) (now : ℕ) (pong : Option String) (user_id : ℕ)
    (r : Submission) where
  module _ (type_name key : String) (typed : present r.type_name ≡ some type_name)
      (keyed : present r.idempotency_key ≡ some key) (healthy : is_redis_healthy pong ≡ true)
      (w : World) where
    pub submit_job-found :
        submit_job to_iso_string now pong user_id r w
        ≡ submit_unless_found now
            (new_job to_iso_string now user_id type_name key r)
            (s.find_by_key key w.jobs)
            w
    unfolding submit_job
    submit_job-found = rw (typed, keyed, healthy)

    -- For a submission with a type and a key, when Redis passes the health check: if the key is
    -- taken, the answer is 200 with a job that has it, whoever submitted that, and nothing changes.
    pub submit_job-taken :
        (job_id : ℕ) (job : Job)
        → document job_id w ≡ some job
        → job.idempotency_key ≡ key
        → (i : ℕ) × (other : Job) × (document i w ≡ some other)
          × (other.idempotency_key ≡ key)
          × (submit_job to_iso_string now pong user_id r w
              ≡ (ok (respond 200 (already_submitted i other)), w))
    submit_job-taken job_id job here same = elim (Option-cases (s.find_by_key key w.jobs)) [
      | inl free ↦ absurd (s.find_by_key-complete key w.jobs job_id job free here same)
      | inr ((i, other), found) ↦
          let (there, has_key) = s.find_by_key-sound key w.jobs i other found in
          (i, other, there, has_key, submit_job-found ∙ rw found)
    ]

    -- What a submission makes of the state when the key is free and Redis answers.
    pub record Submitted (job_id : ℕ) (w' : World) : Type 0 where
      pub fresh : document job_id w ≡ none
      pub documents :
          (n : ℕ)
          → document n w' ≡ (
              if job_id == n
              then some (new_job to_iso_string now user_id type_name key r)
              else document n w)
      pub queue :
          (n : ℕ)
          → s.zscore n w'.queue ≡ (
              if job_id == n
              then entered
                  (main_score now
                    (new_job to_iso_string now user_id type_name key r)
                    (future now r.scheduled_for))
                  (s.zscore n w.queue)
              else s.zscore n w.queue)
      pub delayed :
          (n : ℕ)
          → s.zscore n w'.delayed ≡ (
              if job_id == n
              then entered (future now r.scheduled_for) (s.zscore n w.delayed)
              else s.zscore n w.delayed)

    -- For a submission with a type and a key, when Redis passes the health check: if the key is
    -- free and Redis answers, the answer is 201 with a new id. The new document is stored under it
    -- and the others stay; the id enters the delayed queue at its time if it is scheduled for the
    -- future, and else the main queue, and no queue entry changes otherwise.
    pub submit_job-Submitted :
        s.find_by_key key w.jobs ≡ none
        → w.redis_up ≡ true
        → (job_id : ℕ) × ((submit_job to_iso_string now pong user_id r w).0
            ≡ ok (
                respond 201 (
                  submitted
                    (submitted_message (future now r.scheduled_for))
                    job_id
                    Status.queued
                    (future now r.scheduled_for))))
          × Submitted job_id (submit_job to_iso_string now pong user_id r w).1
    submit_job-Submitted free up =
        let job = new_job to_iso_string now user_id type_name key r in
        let (job_id, created) = s.create-fresh job w.jobs free in
        let v : World = record w { jobs = (s.create job w.jobs).1 } in
        let (done, entry) = enqueue-Enqueued now job_id job job.scheduled_for v up in
        (
          job_id,
          rw (submit_job-found, free, created, done),
          record {
            fresh = s.created_id job w.jobs job_id created;
            documents = λ n.
                rw (submit_job-found, free, created, done)
                  (ap (s.find_by_id n) entry.jobs
                    ∙ s.find_by_id-created job w.jobs job_id n created);
            queue = λ n. rw (submit_job-found, free, created, done) (entry.queue n);
            delayed = λ n. rw (submit_job-found, free, created, done) (entry.delayed n);
          },
        )
