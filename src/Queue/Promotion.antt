-- ===== src/Queue/Promotion.antt =====
-- Moving due jobs out of the delayed queue (queue/claim.js, `promoteDueDelayedJobs`).
use ai_distributed_job_platf.Prelude.{
  ℕ, ◌≡◌, refl, true, false, List, [], ◌∷◌, none, ok, ◌==◌, ◌&&◌, if◌then◌else◌, includes,
  IsDistinct, arith,
}
use ai_distributed_job_platf.Services.{Services}
use ai_distributed_job_platf.Services.World.{World}
use ai_distributed_job_platf.Services.Redis.{is_member, is_due}
use ai_distributed_job_platf.Queue.{remove_due, promote_due_delayed_jobs}

module _ ⦃s : Services⦄ where
  -- What is left after the loop.
  zscore-remove_due :
      (n : ℕ) (due : List ℕ) (z : s.ZSet)
      → s.zscore n (remove_due due z).1 ≡ (if includes n due then none else s.zscore n z)
  unfolding remove_due includes
  zscore-remove_due n [] z = refl
  zscore-remove_due n (m ∷ due) z =
      ground (arith, zscore-remove_due n due (s.zrem m z).1, s.zscore-zrem m n z)

  -- The ids that the loop reports are those of its list that were still in the set.
  includes-remove_due :
      (n : ℕ) (due : List ℕ) (z : s.ZSet)
      → includes n (remove_due due z).0
        ≡ (if includes n due then is_member (s.zscore n z) else false)
  unfolding remove_due includes
  includes-remove_due n [] z = refl
  includes-remove_due n (m ∷ due) z =
      ground
        (arith, includes-remove_due n due (s.zrem m z).1, s.zscore-zrem m n z, s.zrem_removed m z)

  -- Whatever list it is given, the loop reports no id twice.
  remove_due-IsDistinct : (due : List ℕ) (z : s.ZSet) → IsDistinct (remove_due due z).0
  unfolding remove_due
  remove_due-IsDistinct [] z = tt
  remove_due-IsDistinct (d ∷ due) z = ground (
    arith,
    remove_due-IsDistinct due (s.zrem d z).1,
    includes-remove_due d due (s.zrem d z).1,
    s.zscore-zrem d d z,
  )

  -- What one round of promotion does, when Redis answers.
  pub record Promotion (now : ℕ) (w w' : World) (ids : List ℕ) : Type 0 where
    pub reported : (n : ℕ) → includes n ids ≡ is_due now (s.zscore n w.delayed)
    pub once : IsDistinct ids
    pub left :
        (n : ℕ)
        → s.zscore n w'.delayed
          ≡ (if is_due now (s.zscore n w.delayed) then none else s.zscore n w.delayed)
    pub same_queue : w'.queue ≡ w.queue
    pub same_jobs : w'.jobs ≡ w.jobs
    pub redis_up : w'.redis_up ≡ w.redis_up

  -- When Redis answers, a round of promotion reports exactly the members of the delayed queue whose
  -- ready time is not after `now`, each of them once; it removes these from the delayed queue and
  -- leaves the other members, the main queue and the jobs as they were.
  pub promote_due_delayed_jobs-Promotion :
      (now : ℕ) (w : World)
      → w.redis_up ≡ true
      → (ids : List ℕ) × ((promote_due_delayed_jobs now w).0 ≡ ok ids)
        × Promotion now w (promote_due_delayed_jobs now w).1 ids
  unfolding promote_due_delayed_jobs
  promote_due_delayed_jobs-Promotion now w up = (
    (remove_due (s.zrangebyscore now w.delayed) w.delayed).0,
    ground arith,
    record {
      reported = λ n. ground (
        arith,
        includes-remove_due n (s.zrangebyscore now w.delayed) w.delayed,
        s.includes-zrangebyscore now n w.delayed,
      );
      once = remove_due-IsDistinct (s.zrangebyscore now w.delayed) w.delayed;
      left = λ n. ground (
        arith,
        zscore-remove_due n (s.zrangebyscore now w.delayed) w.delayed,
        s.includes-zrangebyscore now n w.delayed,
      );
      same_queue = ground arith;
      same_jobs = ground arith;
      redis_up = ground arith;
    },
  )

  -- The `ZREM` commands of several workers in the order in which Redis runs them, each with the
  -- number of its worker, and the ids that worker `k` reports. Each worker walks a list of its own,
  -- fetched at any earlier moment.
  unfoldable pub promoted_by : ℕ → List (ℕ × ℕ) → s.ZSet → List ℕ
  promoted_by k [] z = []
  promoted_by k ((j, m) ∷ steps) z =
      let rest = promoted_by k steps (s.zrem m z).1 in
      if (s.zrem m z).0 && j == k then m ∷ rest else rest
