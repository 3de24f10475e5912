-- ===== src/Queue/Score.antt =====
-- The order of the main queue: by priority, then by time (queue/queue.js).
use native.Mathlib.Decide.{dec_lt}
use ai_distributed_job_platf.Prelude.{ℕ, ◌+◌, ◌^◌, ◌≤◌, ◌<◌, ◌≡◌, ◌↔◌, ◌⊎◌, inl, inr, arith}
use ai_distributed_job_platf.Queue.{priority_weight, compute_score}

-- For two jobs whose times are less than 10^12 ms (31 years) apart, the one with the lower score,
-- which is taken first, is the one with the lower priority number, or the older one if the
-- priority numbers are equal.
compute_score_lexicographic :
    (p q t u : ℕ)
    → t < u + priority_weight
    → u < t + priority_weight
    → (compute_score p t < compute_score q u) ↔ ((p < q) ⊎ (p ≡ q) × (t < u))
unfolding compute_score
compute_score_lexicographic p q t u near near' = (
  λ h. elim (dec_lt p q) [ yes below ↦ inl below | no above ↦ inr (omega arith, omega arith) ],
  λ h. omega arith,
)

-- A score of a priority up to 9000 at a time before the year 2195 is a number that a double holds
-- exactly.
compute_score_exact : (p t : ℕ) → p ≤ 9000 → t < 7_100_000_000_000 → compute_score p t < 2 ^ 53
unfolding compute_score
compute_score_exact p t hp ht = omega arith
