-- ===== src/Http/Guesses.antt =====
-- How many registrations, logins and refreshes of one address reach the controllers
-- (modules/auth/auth.routes.js, over middlewares/rateLimiter.js).
use ai_distributed_job_platf.Prelude.{
  ℕ, suc, ◌+◌, ◌/◌, ◌≡◌, refl, ap, ◌∙◌, String, Bool, true, false, List, [], ◌∷◌, some, none, min,
  All, length, arith,
}
use ai_distributed_job_platf.RateLimiter.{Reply, passed, too_many, Answers, limit_key, rate_limit}
use ai_distributed_job_platf.RateLimiter.Commands.{Counters}
use ai_distributed_job_platf.RateLimiter.Window.{
  all_answered, is_passed, InWindow, request, passes, passes_window,
}
use ai_distributed_job_platf.Auth.External.{Accounts}
use ai_distributed_job_platf.Http.{
  AccountRequest, post_register, post_login, post_refresh, post_logout, handle_account,
  limit_account, account_passed, serve_account,
}
use ai_distributed_job_platf.Http.Limits.{reached, reached-settle}

-- A request to a route of accounts, at a time.
pub record Call : Type 0 where
  pub now : ℕ
  pub answers : Answers
  pub asked : AccountRequest

-- The three routes that share a limiter.
abbrev pub is_counted : AccountRequest → Bool
is_counted (post_logout token) = false
is_counted _ = true

-- The seconds at which the calls come.
abbrev pub call_seconds : List Call → List ℕ
call_seconds [] = []
call_seconds (q ∷ qs) = q.now / 1000 ∷ call_seconds qs

length-call_seconds : (qs : List Call) → length (call_seconds qs) ≡ length qs
length-call_seconds [] = refl
length-call_seconds (q ∷ qs) = ap suc (length-call_seconds qs)

-- A call on one of the three routes, during which Redis answers the limiter.
pub record IsGuess (q : Call) : Type 0 where
  pub counted : is_counted q.asked ≡ true
  pub answered : q.answers ≡ all_answered

module _ ⦃a : Accounts⦄ ⦃c : Counters⦄ (ip : String) where
  limit_account_lem :
      (now : ℕ) (answers : Answers) (r : AccountRequest) (counters : c.Store)
      → is_counted r ≡ true
      → limit_account now ip answers r counters
        ≡ rate_limit 60 5 answers (limit_key none ip) (now / 1000) counters
  limit_account_lem now answers (post_register salt salt' email password) counters h = refl
  limit_account_lem now answers (post_login salt email password) counters h = refl
  limit_account_lem now answers (post_refresh salt token) counters h = refl
  limit_account_lem now answers (post_logout token) counters h = absurd (ground arith)

  passed_reached :
      (now : ℕ) (r : AccountRequest) (p : Reply × c.Store) (users : a.Users)
      → (reached (account_passed now r p users).0 ≡ is_passed p.0)
        × ((account_passed now r p users).2 ≡ p.1)
  passed_reached now r (too_many n, counters) users = (refl, refl)
  passed_reached now r (passed, counters) users =
      (reached-settle (handle_account now r users).0, refl)

  -- How many of the calls reach a controller.
  pub guesses : List Call → a.Users → c.Store → ℕ
  guesses [] users counters = 0
  guesses (q ∷ qs) users counters =
      let (answer, users', counters') = serve_account q.now ip q.answers q.asked users counters in
      reached answer + guesses qs users' counters'

  guesses-passes :
      (qs : List Call) (users : a.Users) (counters : c.Store)
      → All IsGuess qs
      → guesses qs users counters ≡ passes 60 5 (limit_key none ip) (call_seconds qs) counters
  unfolding guesses passes serve_account
  guesses-passes [] users counters h = refl
  guesses-passes (q ∷ qs) users counters (first, rest) =
      let p = request 60 5 (limit_key none ip) (q.now / 1000) counters in
      let (same, next) = passed_reached q.now q.asked p users in
      rw (limit_account_lem q.now q.answers q.asked counters first.counted, first.answered)
        (rw
          (
            same,
            guesses-passes qs (account_passed q.now q.asked p users).1
                (account_passed q.now q.asked p users).2 rest,
            next,
          )
          refl)

  -- Guessing passwords is slow: while Redis answers the limiter, of the registrations, logins and
  -- refreshes from one address, the first of which finds no counter and the others of which come,
  -- in order, before its minute ends, as many reach the controllers as there are, up to five in all.
  pub guesses-min :
      (q : Call) (qs : List Call) (users : a.Users) (counters : c.Store)
      → All IsGuess (q ∷ qs)
      → c.view (limit_key none ip) (q.now / 1000) counters ≡ none
      → InWindow (q.now / 1000) (some (q.now / 1000 + 60)) (call_seconds qs)
      → guesses (q ∷ qs) users counters ≡ min (length (q ∷ qs)) 5
  guesses-min q qs users counters h fresh window =
      guesses-passes (q ∷ qs) users counters h
      ∙ (passes_window 60 5 (limit_key none ip) (q.now / 1000) (call_seconds qs) counters fresh
            window
          ∙ ap (λ k. min (suc k) 5) (length-call_seconds qs))
