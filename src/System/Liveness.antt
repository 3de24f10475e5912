-- ===== src/System/Liveness.antt =====
-- That no job stays PROCESSING for ever (worker/worker.js, `recoverStaleJobs`), whatever happened
-- before.
use ai_distributed_job_platf.Prelude.{ℕ, suc, ◌+◌, ◌≡◌, String, true, List, some, arith}
use ai_distributed_job_platf.Models.Job.{Job, processing}
use ai_distributed_job_platf.Services.{Services}
use ai_distributed_job_platf.Services.World.{World, document}
use ai_distributed_job_platf.Worker.Loops.{recover_stale_jobs}
use ai_distributed_job_platf.Worker.Retries.{failed_status}
use ai_distributed_job_platf.Worker.Rescue.{recover_stale_jobs-Recovered}
use ai_distributed_job_platf.System.{Step, run}
use ai_distributed_job_platf.System.Invariants.{AllRecoverable, run-AllRecoverable}

module _ ⦃s : Services⦄ where
  -- Whatever steps the processes have taken, crashes of workers included, a job that is PROCESSING
  -- has a time at which its lock ends, and a recovery scan after that time by any worker, if Redis
  -- answers, makes it RETRYING or DEAD_LETTER, according to the attempts that it has left: every
  -- PROCESSING job had an owner and a lock time at the beginning.
  pub run_recovers :
      (steps : List Step) (w : World) (j : ℕ) (d : Job) (worker_id : String)
      → AllRecoverable w
      → document j (run steps w) ≡ some d
      → d.status ≡ processing
      → (run steps w).redis_up ≡ true
      → (expires : ℕ) × (d.lock_expires_at ≡ some expires)
        × ((wait : ℕ)
            → let w' = (recover_stale_jobs worker_id (suc expires + wait) (run steps w)).1 in
              (e : Job) × (document j w' ≡ some e)
              × (e.status ≡ failed_status d.attempts d.max_attempts))
  run_recovers steps w j d worker_id h here runs up =
      let ((owner, locked), (expires, ends)) = run-AllRecoverable steps w h j d here runs in
      (
        expires,
        ends,
        λ wait.
            let (_, r) =
              recover_stale_jobs-Recovered worker_id (suc expires + wait) j d owner locked expires
                (run steps w) here runs ends (omega arith) up in
            (r.after, r.stored, r.status),
      )
