-- ===== src/Queue/Claiming.antt =====
-- Taking a job from the main queue (queue/claim.js, `claimNextJob`).
use native.Mathlib.Decide.{dec_lt}
use ai_distributed_job_platf.Prelude.{
  ℕ, ◌+◌, ◌≤◌, ◌<◌, ◌≡◌, ◌≢◌, ◌⊎◌, inl, inr, subst, true, none, some, ok, ◌==◌, if◌then◌else◌,
  Option-cases, arith,
}
use ai_distributed_job_platf.Services.{Services}
use ai_distributed_job_platf.Services.World.{World}
use ai_distributed_job_platf.Queue.{priority_weight, compute_score, claim_next_job}

module _ ⦃s : Services⦄ where
  -- The main queue without one member.
  abbrev pub Removed : ℕ → World → World → Type 0
  Removed m w w' = (n : ℕ) → s.zscore n w'.queue ≡ (if m == n then none else s.zscore n w.queue)

  -- A claim took the member `m`, of the least score, and nothing else.
  pub record Claim (m score : ℕ) (w w' : World) : Type 0 where
    pub member : s.zscore m w.queue ≡ some score
    pub least : (n t : ℕ) → s.zscore n w.queue ≡ some t → score ≤ t
    pub removed : Removed m w w'
    pub same_delayed : w'.delayed ≡ w.delayed
    pub same_jobs : w'.jobs ≡ w.jobs

  -- When Redis answers, a claim on an empty queue returns nothing, and any other claim returns a
  -- member of the least score and takes it, and only it, out of the queue.
  pub claim_next_job-Claim :
      (w : World)
      → w.redis_up ≡ true
      → (((claim_next_job w).0 ≡ ok none) × ((n : ℕ) → s.zscore n w.queue ≡ none))
        ⊎ ((m : ℕ) × (score : ℕ) × ((claim_next_job w).0 ≡ ok (some m))
            × Claim m score w (claim_next_job w).1)
  unfolding claim_next_job
  claim_next_job-Claim w up = elim (Option-cases (s.bzpopmin w.queue).0) [
    | inl e ↦ inl (ground arith, λ n. s.bzpopmin_empty w.queue n e)
    | inr ((m, score), e) ↦ inr (
      m,
      score,
      ground arith,
      record {
        member = s.bzpopmin_member w.queue m score e;
        least = λ n t h. s.bzpopmin_least w.queue m score n t e h;
        removed = λ n. ground (arith, s.zscore-bzpopmin w.queue m score n e);
        same_delayed = ground arith;
        same_jobs = ground arith;
      },
    )
  ]

  pub claimed-Claim :
      (w : World) (m : ℕ)
      → w.redis_up ≡ true
      → (claim_next_job w).0 ≡ ok (some m)
      → (score : ℕ) × Claim m score w (claim_next_job w).1
  claimed-Claim w m up h = elim (claim_next_job-Claim w up) [
    | inl (nothing, _) ↦ cc
    | inr (m', score, e, claim) ↦
        (score, subst (λ k. Claim k score w (claim_next_job w).1) (ground arith) claim)
  ]

  pub claim_next_job_up : (w : World) → w.redis_up ≡ true → (claim_next_job w).1.redis_up ≡ true
  unfolding claim_next_job
  claim_next_job_up w up = ground arith

  -- A job that was claimed is gone: the next claim does not return it.
  claim_next_job_once :
      (w : World) (m : ℕ)
      → w.redis_up ≡ true
      → (claim_next_job w).0 ≡ ok (some m)
      → (claim_next_job (claim_next_job w).1).0 ≢ ok (some m)
  claim_next_job_once w m up h again =
      let (score, first) = claimed-Claim w m up h in
      let (score', second) = claimed-Claim (claim_next_job w).1 m (claim_next_job_up w up) again in
      ground (arith, first.removed m, second.member)

  -- When Redis answers, let the job that is claimed and another member of the queue each have been
  -- pushed with a priority number and a time, the times being less than 10^12 ms apart. Then the
  -- claimed job has the lower priority number, or the same one and a time that is not later.
  pub claim_next_job_priority :
      (w : World) (m p t n q u : ℕ)
      → w.redis_up ≡ true
      → (claim_next_job w).0 ≡ ok (some m)
      → s.zscore m w.queue ≡ some (compute_score p t)
      → s.zscore n w.queue ≡ some (compute_score q u)
      → t < u + priority_weight
      → u < t + priority_weight
      → (p < q) ⊎ ((p ≡ q) × (t ≤ u))
  claim_next_job_priority w m p t n q u up h hm hn near near' =
      let (score, claim) = claimed-Claim w m up h in
      let below : compute_score p t ≤ compute_score q u =
        ground (arith, claim.member, claim.least n (compute_score q u) hn) in
      elim (dec_lt p q) [
        | yes less ↦ inl less
        | no more ↦ inr (unfold compute_score in (omega arith, omega arith))
      ]
