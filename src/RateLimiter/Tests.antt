-- ===== src/RateLimiter/Tests.antt =====
-- Runs of middlewares/rateLimiter.js with counters in memory.
use ai_distributed_job_platf.Prelude.{◌≡◌, refl, false, none, [], ◌∷◌, arith}
use ai_distributed_job_platf.RateLimiter.{passed, rate_limit}
use ai_distributed_job_platf.RateLimiter.Memory.{memory_counters, Keys}
use ai_distributed_job_platf.RateLimiter.Window.{all_answered, passes, passes_forever}

abbrev no_keys : Keys
no_keys key = none

passes_forever_example :
    let (reply, next) =
      rate_limit 60 2 (record all_answered { expire = false }) "ratelimit:7" 100 no_keys in
    (reply ≡ passed) × (passes 60 2 "ratelimit:7" (1000 ∷ 90000 ∷ []) next ≡ 1)
passes_forever_example =
    passes_forever 60 2 "ratelimit:7" 100 (1000 ∷ 90000 ∷ []) no_keys refl
      (omega arith, tt, (omega arith, tt, tt))
