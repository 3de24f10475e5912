-- ===== src/Worker/Losses.antt =====
-- What a crash or a slow worker leaves behind (worker/worker.js, `runLane`, `processJob` and
-- `recoverStaleJobs`; queue/claim.js).
use ai_distributed_job_platf.Prelude.{
  ℕ, ◌≡◌, refl, ap, ◌∙◌, String, true, none, some, ok, ◌&&◌, ==_refl,
}
use ai_distributed_job_platf.Models.Json.{Json}
use ai_distributed_job_platf.Models.Job.{Job, queued, processing, status_eq}
use ai_distributed_job_platf.Services.{Services}
use ai_distributed_job_platf.Services.World.{World, document}
use ai_distributed_job_platf.Queue.{claim_next_job}
use ai_distributed_job_platf.Queue.Claiming.{claimed-Claim}
use ai_distributed_job_platf.Worker.Loops.{is_expired, recover_stale_jobs}
use ai_distributed_job_platf.Worker.Recovery.{recover_stale_jobs-keeps}

module _ ⦃s : Services⦄ where
  -- When Redis answers, and a worker stops between taking a QUEUED job, which is not in the delayed
  -- queue, from the main queue and writing its lock, the job is in neither queue, and a recovery
  -- scan at any time leaves it QUEUED as it is.
  pub claim_next_job_crash :
      (worker_id : String) (now job_id : ℕ) (job : Job) (w : World)
      → w.redis_up ≡ true
      → document job_id w ≡ some job
      → job.status ≡ queued
      → s.zscore job_id w.delayed ≡ none
      → (claim_next_job w).0 ≡ ok (some job_id)
      → let w₁ = (claim_next_job w).1 in
        (s.zscore job_id w₁.queue ≡ none)
        × (s.zscore job_id w₁.delayed ≡ none)
        × (document job_id (recover_stale_jobs worker_id now w₁).1 ≡ some job)
  claim_next_job_crash worker_id now job_id job w up here waits apart taken =
      let (score, claim) = claimed-Claim w job_id up taken in
      (
        claim.removed job_id ∙ rw (==_refl job_id) refl,
        ap (s.zscore job_id) claim.same_delayed ∙ apart,
        recover_stale_jobs-keeps worker_id now (claim_next_job w).1 job_id job
            (ap (s.find_by_id job_id) claim.same_jobs ∙ here)
            (ap (λ status. status_eq status processing && is_expired now job.lock_expires_at)
              waits),
      )
