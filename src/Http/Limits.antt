-- ===== src/Http/Limits.antt =====
-- How many submissions of a user reach the controller (modules/jobs/jobs.routes.js, over
-- middlewares/rateLimiter.js).
use ai_distributed_job_platf.Prelude.{
  show_full, ℕ, suc, Outcome, ok, threw, template, ◌+◌, ◌/◌, ◌≡◌, refl, ap, ◌∙◌, String, List, [],
  ◌∷◌, Option, none, some, min, All, length, show,
}
use ai_distributed_job_platf.Services.{Services}
use ai_distributed_job_platf.Services.World.{World}
use ai_distributed_job_platf.RateLimiter.{Reply, passed, too_many, limit_key}
use ai_distributed_job_platf.RateLimiter.Commands.{Counters}
use ai_distributed_job_platf.RateLimiter.Window.{
  all_answered, is_passed, InWindow, request, passes, passes_window,
}
use ai_distributed_job_platf.Auth.External.{Accounts}
use ai_distributed_job_platf.Jobs.{Submission}
use ai_distributed_job_platf.Http.{
  Answer, unauthorized, limited, handled, internal_error, settle, identified, authenticate,
  JobRequest, post, Request, Server, handle, handle_passed, serve,
}

-- Whether a controller was reached, as a number.
abbrev pub reached : {R : Type 0} → Answer R → ℕ
reached (unauthorized message) = 0
reached (limited seconds) = 0
reached (handled response) = 1
reached (internal_error err) = 1

pub reached-settle : {R : Type 0} (r : Outcome R) → reached (settle r) ≡ 1
reached-settle (ok response) = refl
reached-settle (threw err) = refl

-- The seconds at which the requests come.
abbrev pub seconds : List Request → List ℕ
seconds [] = []
seconds (q ∷ qs) = q.now / 1000 ∷ seconds qs

length-seconds : (qs : List Request) → length (seconds qs) ≡ length qs
length-seconds [] = refl
length-seconds (q ∷ qs) = ap suc (length-seconds qs)

module _ ⦃s : Services⦄ ⦃c : Counters⦄ ⦃a : Accounts⦄ (iso : ℕ → String) where
  -- How many of the requests reach a controller.
  pub admitted : List Request → Server → ℕ
  admitted [] server = 0
  admitted (q ∷ qs) server = reached (serve iso q server).0 + admitted qs (serve iso q server).1

  -- A submission with a token of the user, during which Redis answers the limiter.
  pub record IsSubmission (user_id : ℕ) (q : Request) : Type 0 where
    pub email : String
    pub token : authenticate q.now q.authorization ≡ identified user_id email
    pub pong : Option String
    pub submission : Submission
    pub posted : q.job_request ≡ post pong submission
    pub answered : q.answers ≡ all_answered

  passed_reached :
      (now user_id : ℕ) (r : JobRequest) (p : Reply × c.Store) (w : World)
      → (reached (handle_passed iso now user_id r p w).0 ≡ is_passed p.0)
        × ((handle_passed iso now user_id r p w).1.counters ≡ p.1)
  passed_reached now user_id r (too_many n, counters) w = (refl, refl)
  passed_reached now user_id r (passed, counters) w =
      (reached-settle (handle iso now user_id r w).0, refl)

  module _ (user_id : ℕ) where
    abbrev pub user_key : String
    user_key = template ("ratelimit:" ∷ show user_id ∷ [])

    serve-IsSubmission :
        (q : Request) (server : Server)
        → IsSubmission user_id q
        → let r = request 60 10 user_key (q.now / 1000) server.counters in
          (reached (serve iso q server).0 ≡ is_passed r.0) × ((serve iso q server).1.counters ≡ r.1)
    unfolding serve limit_key
    serve-IsSubmission q server h =
        rw (h.token, h.posted, h.answered, show_full user_id)
          (passed_reached q.now user_id (post h.pong h.submission)
            (request 60 10 user_key (q.now / 1000) server.counters) server.world)

    admitted-passes :
        (qs : List Request) (server : Server)
        → All (IsSubmission user_id) qs
        → admitted qs server ≡ passes 60 10 user_key (seconds qs) server.counters
    unfolding admitted passes
    admitted-passes [] server h = refl
    admitted-passes (q ∷ qs) server (first, rest) =
        let (same, next) = serve-IsSubmission q server first in
        rw (same, admitted-passes qs (serve iso q server).1 rest, next) refl

    -- The routes and the limiter together. While Redis answers the limiter, of the submissions with
    -- tokens of one user, the first of which finds no counter and the others of which come, in
    -- order, before its minute ends, as many reach the controller as there are, up to ten, whatever
    -- they submit and wherever they come from.
    pub admitted-min :
        (q : Request) (qs : List Request) (server : Server)
        → All (IsSubmission user_id) (q ∷ qs)
        → c.view user_key (q.now / 1000) server.counters ≡ none
        → InWindow (q.now / 1000) (some (q.now / 1000 + 60)) (seconds qs)
        → admitted (q ∷ qs) server ≡ min (length (q ∷ qs)) 10
    admitted-min q qs server h fresh window =
        admitted-passes (q ∷ qs) server h
        ∙ passes_window 60 10 user_key (q.now / 1000) (seconds qs) server.counters fresh window
        ∙ ap (λ k. min (suc k) 10) (length-seconds qs)
