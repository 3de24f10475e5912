-- ===== src/RateLimiter.antt =====
-- src/middlewares/rateLimiter.js: a fixed window of requests for each user or address, counted in
-- Redis. Redis is a parameter: keys with a counter and, maybe, a time at which they end. Times are
-- in seconds.
pub mod Commands
pub mod Window
pub mod Memory
mod Tests
use ai_distributed_job_platf.Prelude.{
  ℕ, String, Bool, [], ◌∷◌, Option, none, some, ◌==◌, ltb, str_eq, template, if◌then◌else◌,
}
use Commands.{Counters}

-- What the middleware does with the request: `next()`, or the answer 429 with `retryAfterSeconds`.
pub data Reply : Type 0 where
  passed : Reply
  too_many : ℕ → Reply

-- `ratelimit:${req.user?.id || req.ip}`.
unfoldable pub limit_key : Option String → String → String
limit_key none ip = template ("ratelimit:" ∷ ip ∷ [])
limit_key (some id) ip =
    if str_eq id "" then template ("ratelimit:" ∷ ip ∷ []) else template ("ratelimit:" ∷ id ∷ [])

-- Which of the three commands Redis answers; a command that it does not answer rejects.
pub record Answers : Type 0 where
  pub incr : Bool
  pub expire : Bool
  pub ttl : Bool

-- `ttl > 0 ? ttl : windowSeconds`; `none` is a negative reply.
abbrev pub retry_after : ℕ → Option ℕ → ℕ
retry_after window_seconds none = window_seconds
retry_after window_seconds (some ttl) = if ltb 0 ttl then ttl else window_seconds

module _ ⦃c : Counters⦄ (window_seconds max_requests : ℕ) (a : Answers) (key : String)
    (now : ℕ) where
  -- Behind the start of the window.
  abbrev pub check_count : ℕ → c.Store → Reply × c.Store
  check_count count store =
      if ltb max_requests count
      then (if a.ttl
          then (too_many (retry_after window_seconds (c.ttl key now store)), store)
          else (passed, store))
      else (passed, store)

  -- Behind the increment.
  abbrev pub start_window : ℕ × c.Store → Reply × c.Store
  start_window (count, store) =
      if count == 1
      then (if a.expire
          then check_count count (c.expire key window_seconds now store)
          else (passed, store))
      else check_count count store

  -- `rateLimitMiddleware`.
  unfoldable pub rate_limit : c.Store → Reply × c.Store
  rate_limit store = if a.incr then start_window (c.incr key now store) else (passed, store)
