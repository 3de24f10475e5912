-- ===== src/Queue.antt =====
-- src/queue/queue.js and src/queue/claim.js: the main queue, scored by priority and time, and the
-- delayed queue, scored by the time at which a job becomes ready. `Date.now()` is an argument.
pub mod Score
pub mod Promotion
pub mod Claiming
mod Tests
use ai_distributed_job_platf.Prelude.{
  ℕ, ◌+◌, ◌*◌, Bool, List, [], ◌∷◌, Option, none, some, if◌then◌else◌,
}
use ai_distributed_job_platf.Services.{Services}
use ai_distributed_job_platf.Services.World.{World, M, redis_command}

abbrev pub priority_weight : ℕ
priority_weight = 1_000_000_000_000

unfoldable pub compute_score : ℕ → ℕ → ℕ
compute_score priority created_at_ms = priority * priority_weight + created_at_ms

module _ ⦃s : Services⦄ where
  unfoldable pub push_job_to_queue : ℕ → ℕ → ℕ → M (Unit {0})
  push_job_to_queue now job_id priority =
      let score = compute_score priority now in
      redis_command (λ w. (tt, record w { queue = s.zadd score job_id w.queue }))

  unfoldable pub push_to_delayed_queue : ℕ → ℕ → M (Unit {0})
  push_to_delayed_queue job_id ready_at_ms =
      redis_command (λ w. (tt, record w { delayed = s.zadd ready_at_ms job_id w.delayed }))

  unfoldable pub remove_job_from_queue : ℕ → M Bool
  remove_job_from_queue job_id =
      redis_command
        (λ w. ((s.zrem job_id w.queue).0, record w { queue = (s.zrem job_id w.queue).1 }))

  unfoldable pub remove_job_from_delayed_queue : ℕ → M Bool
  remove_job_from_delayed_queue job_id =
      redis_command
        (λ w. ((s.zrem job_id w.delayed).0, record w { delayed = (s.zrem job_id w.delayed).1 }))

  -- `const [, jobId] = result`.
  abbrev member_of : Option (ℕ × ℕ) → Option ℕ
  member_of none = none
  member_of (some (job_id, score)) = some job_id

  -- `none` is the answer when the wait timed out.
  unfoldable pub claim_next_job : M (Option ℕ)
  claim_next_job =
      redis_command
        (λ w. (member_of (s.bzpopmin w.queue).0, record w { queue = (s.bzpopmin w.queue).1 }))

  pub remove_due : List ℕ → s.ZSet → List ℕ × s.ZSet
  remove_due [] z = ([], z)
  remove_due (job_id ∷ due) z =
      let rest = remove_due due (s.zrem job_id z).1 in
      (if (s.zrem job_id z).0 then job_id ∷ rest.0 else rest.0, rest.1)

  unfoldable pub promote_due_delayed_jobs : ℕ → M (List ℕ)
  unfolding remove_due
  promote_due_delayed_jobs now = redis_command λ w.
      let r = remove_due (s.zrangebyscore now w.delayed) w.delayed in
      (r.0, record w { delayed = r.1 })
