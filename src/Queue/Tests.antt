-- ===== src/Queue/Tests.antt =====
-- Runs of queue/queue.js and queue/claim.js on the states of `Samples`.
use ai_distributed_job_platf.Prelude.{ℕ, ◌<◌, ◌≤◌, ◌≡◌, ◌⊎◌, refl, List, [], ◌∷◌, some, ok, arith}
use ai_distributed_job_platf.Services.Memory.{memory}
use ai_distributed_job_platf.Samples.{busy_world}
use ai_distributed_job_platf.Queue.{
  compute_score, claim_next_job, remove_due, promote_due_delayed_jobs,
}
use ai_distributed_job_platf.Queue.Claiming.{claim_next_job_priority}

promotes_due : (promote_due_delayed_jobs 5000 busy_world).0 ≡ ok (2 ∷ [])
unfolding promote_due_delayed_jobs remove_due
promotes_due = refl

abbrev interleaved : List (ℕ × ℕ)
interleaved = (1, 2) ∷ (2, 2) ∷ (2, 3) ∷ (1, 3) ∷ []

claims_first : (claim_next_job busy_world).0 ≡ ok (some 1)
unfolding claim_next_job
claims_first = refl

claim_next_job_priority_example : (1 < 5) ⊎ ((◌≡◌ {A = ℕ} 1 5) × (2000 ≤ 1000))
claim_next_job_priority_example =
    claim_next_job_priority busy_world 1 1 2000 0 5 1000 refl claims_first
      (unfold compute_score in refl) (unfold compute_score in refl) (omega arith) (omega arith)
