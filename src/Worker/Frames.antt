-- ===== src/Worker/Frames.antt =====
-- What `handleFailure` (worker/worker.js) leaves as it is, and that it ends when Redis answers.
use ai_distributed_job_platf.Prelude.{
  ℕ, ◌+◌, ◌≡◌, ◌≢◌, inl, inr, String, true, Option, Error, ok, Bool-cases, arith,
}
use ai_distributed_job_platf.Models.Job.{Job}
use ai_distributed_job_platf.Services.{Services}
use ai_distributed_job_platf.Services.World.{World}
use ai_distributed_job_platf.Queue.{push_to_delayed_queue}
use ai_distributed_job_platf.Worker.{
  compute_backoff_ms, finalize_job, handle_failure, give_up, schedule_retry,
}
use ai_distributed_job_platf.Worker.Decisions.{gives_up}

module _ ⦃s : Services⦄ where
  -- The other members of the delayed queue stay, whoever holds the locks.
  pub handle_failure-delayed :
      (worker_id : String) (now job_id : ℕ) (job : Job) (err : Error)
      (expected_owner : Option String) (w : World) (n : ℕ)
      → job_id ≢ n
      → s.zscore n (handle_failure worker_id now job_id job err expected_owner w).1.delayed
        ≡ s.zscore n w.delayed
  unfolding handle_failure give_up schedule_retry finalize_job push_to_delayed_queue
  handle_failure-delayed worker_id now job_id job err expected_owner w n apart =
      elim (Bool-cases (gives_up job err)) [
        | inl dead ↦ ground arith
        | inr retry ↦
            ground (arith, s.zscore-zadd (now + compute_backoff_ms job.attempts) job_id n w.delayed)
      ]

  pub handle_failure-ok :
      (worker_id : String) (now job_id : ℕ) (job : Job) (err : Error)
      (expected_owner : Option String) (w : World)
      → w.redis_up ≡ true
      → ((handle_failure worker_id now job_id job err expected_owner w).0 ≡ ok tt)
        × ((handle_failure worker_id now job_id job err expected_owner w).1.redis_up ≡ true)
  unfolding handle_failure give_up schedule_retry finalize_job push_to_delayed_queue
  handle_failure-ok worker_id now job_id job err expected_owner w up =
      elim (Bool-cases (gives_up job err)) [ inl dead ↦ ground arith | inr retry ↦ ground arith ]
