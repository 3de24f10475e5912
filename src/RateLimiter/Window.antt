-- ===== src/RateLimiter/Window.antt =====
-- How many requests pass in one window (middlewares/rateLimiter.js).
use ai_distributed_job_platf.Prelude.{
  ℕ, suc, ◌+◌, ◌-◌, ◌≤◌, ◌<◌, min, String, ◌≡◌, refl, ap, inl, inr, true, false, List, [], ◌∷◌,
  Option, none, some, length, ltb, ◌==◌, str_eq, if◌then◌else◌, Bool-cases, ◌∙◌, arith,
}
use ai_distributed_job_platf.RateLimiter.{Reply, passed, too_many, Answers, rate_limit}
use ai_distributed_job_platf.RateLimiter.Commands.{Counters, live, incremented, ending}

abbrev pub all_answered : Answers
all_answered = record { incr = true; expire = true; ttl = true }

abbrev pub is_passed : Reply → ℕ
is_passed passed = 1
is_passed (too_many n) = 0

-- Whether a time is before the end of a counter, if it has one.
abbrev pub IsBefore : ℕ → Option ℕ → Type 0
IsBefore t none = Unit {0}
IsBefore t (some e) = t < e

-- Times in order, from one time on and before the end of a counter.
abbrev pub InWindow : ℕ → Option ℕ → List ℕ → Type 0
InWindow from e [] = Unit {0}
InWindow from e (t ∷ times) = (from ≤ t) × IsBefore t e × InWindow t e times

live_before : (t n : ℕ) (e : Option ℕ) → IsBefore t e → live t (some (n, e)) ≡ some (n, e)
live_before t n none h = refl
live_before t n (some e) h = ground arith

module _ ⦃c : Counters⦄ (window_seconds max_requests : ℕ) (key : String) where
  abbrev pub request : ℕ → c.Store → Reply × c.Store
  request t store = rate_limit window_seconds max_requests all_answered key t store

  -- How many of the requests at these times pass.
  unfoldable pub passes : List ℕ → c.Store → ℕ
  passes [] store = 0
  passes (t ∷ times) store = is_passed (request t store).0 + passes times (request t store).1

  -- A counter that is there, with its end, until then.
  abbrev Holds : ℕ → ℕ → Option ℕ → c.Store → Type 0
  Holds from n e store = (t : ℕ) → from ≤ t → IsBefore t e → c.view key t store ≡ some (n, e)

  request-Holds :
      (from n t : ℕ) (e : Option ℕ) (store : c.Store)
      → 1 ≤ n
      → Holds from n e store
      → from ≤ t
      → IsBefore t e
      → (is_passed (request t store).0 ≡ (if ltb n max_requests then 1 else 0))
        × Holds t (suc n) e (request t store).1
  unfolding rate_limit
  request-Holds from n t e store some_requests holds later before =
      let here = holds t later before in
      let count : (c.incr key t store).0 ≡ suc n =
        c.incr_count key t store ∙ ap (λ o. (incremented o).0) here in
      let first : (suc n == 1) ≡ false = ground arith in
      let next : Holds t (suc n) e (c.incr key t store).1 = λ u later' before'.
        c.view-incr key t u store later'
        ∙ (ap (λ o. live u (some (incremented o))) here ∙ live_before u (suc n) e before') in
      elim (Bool-cases (ltb n max_requests)) [
        | inl free ↦
            let below : ltb max_requests (suc n) ≡ false = ground arith in
            rw (count, first, below, free) (refl, next)
        | inr full ↦
            let above : ltb max_requests (suc n) ≡ true = ground arith in
            rw (count, first, above, full) (refl, next)
      ]

  passes_lem :
      (times : List ℕ) (from n : ℕ) (e : Option ℕ) (store : c.Store)
      → 1 ≤ n
      → Holds from n e store
      → InWindow from e times
      → passes times store ≡ min (length times) (max_requests - n)
  unfolding passes
  passes_lem [] from n e store some_requests holds h = omega arith
  passes_lem (t ∷ times) from n e store some_requests holds (later, before, h) =
      let (this, next) = request-Holds from n t e store some_requests holds later before in
      let rest = passes_lem times t (suc n) e (request t store).1 (omega arith) next h in
      ground arith

  -- The request that starts a window.
  first-Holds :
      (t : ℕ) (store : c.Store)
      → c.view key t store ≡ none
      → (is_passed (request t store).0 ≡ min 1 max_requests)
        × Holds t 1 (some (t + window_seconds)) (request t store).1
  unfolding rate_limit
  first-Holds t store fresh =
      let count : (c.incr key t store).0 ≡ 1 =
        c.incr_count key t store ∙ ap (λ o. (incremented o).0) fresh in
      let counted : c.view key t (c.incr key t store).1 ≡ some (1, none) =
        c.view-incr key t t store (omega arith) ∙ ap (λ o. live t (some (incremented o))) fresh in
      let next : Holds t 1 (some (t + window_seconds))
          (c.expire key window_seconds t (c.incr key t store).1) =
        λ u later before.
          c.view-expire key window_seconds t u (c.incr key t store).1 later
          ∙ (ap (λ o. live u (ending (t + window_seconds) o)) counted
              ∙ live_before u 1 (some (t + window_seconds)) before) in
      elim (Bool-cases (ltb max_requests 1)) [
        | inl full ↦ rw (count, full) (ground arith, next)
        | inr free ↦ rw (count, free) (ground arith, next)
      ]

  -- The limit: while Redis answers, of requests with one key in the order of their times, the first
  -- of which finds no counter and the others of which come before the window that it starts ends,
  -- as many pass as there are, up to `maxRequests`.
  pub passes_window :
      (t : ℕ) (times : List ℕ) (store : c.Store)
      → c.view key t store ≡ none
      → InWindow t (some (t + window_seconds)) times
      → passes (t ∷ times) store ≡ min (length (t ∷ times)) max_requests
  unfolding passes
  passes_window t times store fresh h =
      let (this, next) = first-Holds t store fresh in
      let rest =
        passes_lem times t 1 (some (t + window_seconds)) (request t store).1 (omega arith) next h in
      ground arith

  -- If Redis counts the first request of a window and then does not answer the command that sets
  -- its end, the request passes and the counter never ends: of all later requests with this key,
  -- however far apart and while Redis answers, as many pass as there are, up to `maxRequests - 1`.
  pub passes_forever :
      (t : ℕ) (times : List ℕ) (store : c.Store)
      → c.view key t store ≡ none
      → InWindow t none times
      → let a = record all_answered { expire = false } in
        let (reply, next) = rate_limit window_seconds max_requests a key t store in
        (reply ≡ passed) × (passes times next ≡ min (length times) (max_requests - 1))
  unfolding rate_limit
  passes_forever t times store fresh h =
      let count : (c.incr key t store).0 ≡ 1 =
        c.incr_count key t store ∙ ap (λ o. (incremented o).0) fresh in
      let holds : Holds t 1 none (c.incr key t store).1 = λ u later before.
        c.view-incr key t u store later ∙ ap (λ o. live u (some (incremented o))) fresh in
      rw count (refl, passes_lem times t 1 none (c.incr key t store).1 (omega arith) holds h)

module _ ⦃c : Counters⦄ (window_seconds max_requests : ℕ) (a : Answers) (key : String) where
  -- The limiter fails open: a request is refused only if Redis has counted more than `maxRequests` in
  -- the window and has answered all that was asked of it. A refusal says to wait for at least a
  -- second, if the window has at least one.
  rate_limit_fails_open :
      (now seconds : ℕ) (store : c.Store)
      → 1 ≤ window_seconds
      → (rate_limit window_seconds max_requests a key now store).0 ≡ too_many seconds
      → (a.incr ≡ true)
        × (a.ttl ≡ true)
        × (max_requests < (incremented (c.view key now store)).0)
        × (1 ≤ seconds)
  unfolding rate_limit
  rate_limit_fails_open now seconds store some_time refused =
      ground (arith, c.incr_count key now store)

  -- Whatever Redis answers, a request leaves the counters of all other keys as they are.
  rate_limit-others :
      (now : ℕ) (store : c.Store) (other : String) (t : ℕ)
      → str_eq key other ≡ false
      → c.view other t (rate_limit window_seconds max_requests a key now store).1
        ≡ c.view other t store
  unfolding rate_limit
  rate_limit-others now store other t apart = ground (
    arith,
    c.view-incr_other key other now t store,
    c.view-expire_other key other window_seconds now t (c.incr key now store).1,
  )
