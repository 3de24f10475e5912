-- ===== src/Http.antt =====
-- src/middlewares/authenticate.js and the routing tables modules/jobs/jobs.routes.js and
-- modules/auth/auth.routes.js: what a request passes before a controller runs. A request is given by
-- what the code reads of it, with the time in milliseconds. Express 5 answers 500 when a controller
-- rejects.
pub mod Tokens
pub mod Isolation
pub mod Limits
pub mod Guesses
mod Tests
use ai_distributed_job_platf.Prelude.{
  ℕ, ◌/◌, String, Bool, true, false, not, ◌||◌, List, [], ◌∷◌, Option, none, some, Error, Outcome,
  ok, threw, str_eq, show, starts_with, split_on, second, if◌then◌else◌,
}
use ai_distributed_job_platf.Services.{Services}
use ai_distributed_job_platf.Services.World.{World, M}
use ai_distributed_job_platf.RateLimiter.{Reply, passed, too_many, Answers, limit_key, rate_limit}
use ai_distributed_job_platf.RateLimiter.Commands.{Counters}
use ai_distributed_job_platf.Auth.{
  Result, Response as AccountResponse, register, login, refresh, logout,
}
use ai_distributed_job_platf.Auth.External.{Accounts}
use ai_distributed_job_platf.Jobs.{Submission, Response}
use ai_distributed_job_platf.Jobs.Handlers.{submit_job, get_job_status, cancel_job}

-- What `authenticate` does with a request: the answer 401, or `next()` with `req.user`.
pub data Verdict : Type 0 where
  refused : String → Verdict
  identified : ℕ → String → Verdict

abbrev pub malformed : Verdict
malformed = refused "Missing or malformed Authorization header"

abbrev pub by_payload : Option (ℕ × String) → Verdict
by_payload none = refused "Invalid or expired access token"
by_payload (some (id, email)) = identified id email

-- The answer to a request on a route whose controller answers with a `Body`: 401 of `authenticate`,
-- 429 of the limiter, the controller's, or 500.
pub data Answer (R : Type 0) : Type 0 where
  unauthorized : String → Answer R
  limited : ℕ → Answer R
  handled : R → Answer R
  internal_error : Error → Answer R

abbrev pub settle : {R : Type 0} → Outcome R → Answer R
settle (ok response) = handled response
settle (threw err) = internal_error err

module _ ⦃a : Accounts⦄ where
  -- `verifyAccessToken(token)`, which throws on `undefined`.
  abbrev pub by_token : ℕ → Option String → Verdict
  by_token now none = by_payload none
  by_token now (some token) = by_payload (a.verify_access now token)

  unfoldable pub authenticate : ℕ → Option String → Verdict
  authenticate now none = malformed
  authenticate now (some header) =
      if str_eq header "" || not (starts_with "Bearer " header)
      then malformed
      else by_token now (second (split_on " " header))

-- What a controller of jobs needs, by its route.
pub data JobRequest : Type 0 where
  -- `POST /api/jobs`, with the answer of Redis to the health check.
  post : Option String → Submission → JobRequest
  -- `GET /api/jobs/:id`.
  get : ℕ → JobRequest
  -- `POST /api/jobs/:id/cancel`.
  cancel : ℕ → JobRequest

pub record Request : Type 0 where
  pub now : ℕ
  -- `req.headers.authorization` and `req.ip`.
  pub authorization : Option String
  pub ip : String
  -- Which of the limiter's commands Redis answers.
  pub answers : Answers
  pub job_request : JobRequest

module _ ⦃s : Services⦄ where
  -- The controller behind the middlewares.
  abbrev pub handle : (ℕ → String) → ℕ → ℕ → JobRequest → M Response
  handle iso now user_id (post pong r) = submit_job iso now pong user_id r
  handle iso now user_id (get job_id) = get_job_status user_id job_id
  handle iso now user_id (cancel job_id) = cancel_job now user_id job_id

module _ ⦃s : Services⦄ ⦃c : Counters⦄ where
  -- What the API writes when it serves requests for jobs.
  pub record Server : Type 0 where
    pub world : World
    pub counters : c.Store

  abbrev pub handle_passed :
      (ℕ → String) → ℕ → ℕ → JobRequest → Reply × c.Store → World → Answer Response × Server
  handle_passed iso now user_id job_request (too_many seconds, counters) w =
      (limited seconds, record { world = w; counters = counters })
  handle_passed iso now user_id job_request (passed, counters) w =
      let r = handle iso now user_id job_request w in
      (settle r.0, record { world = r.1; counters = counters })

  -- `rateLimiter({ windowSeconds: 60, maxRequests: 10 })` on the route of submissions, nothing on
  -- the others.
  abbrev pub limit : Request → ℕ → JobRequest → c.Store → Reply × c.Store
  limit q user_id (post pong r) counters =
      rate_limit 60 10 q.answers (limit_key (some (show user_id)) q.ip) (q.now / 1000) counters
  limit q user_id (get job_id) counters = (passed, counters)
  limit q user_id (cancel job_id) counters = (passed, counters)

  abbrev pub serve_identified : (ℕ → String) → Request → Verdict → Server → Answer Response × Server
  serve_identified iso q (refused message) server = (unauthorized message, server)
  serve_identified iso q (identified user_id email) server =
      handle_passed iso q.now user_id q.job_request (limit q user_id q.job_request server.counters)
        server.world

  module _ ⦃a : Accounts⦄ where
    -- The router of `/api/jobs`.
    unfoldable pub serve : (ℕ → String) → Request → Server → Answer Response × Server
    serve iso q server = serve_identified iso q (authenticate q.now q.authorization) server

-- The bodies of the four routes of accounts.
pub data AccountRequest : Type 0 where
  post_register : ℕ → ℕ → Option String → Option String → AccountRequest
  post_login : ℕ → Option String → Option String → AccountRequest
  post_refresh : ℕ → Option String → AccountRequest
  post_logout : Option String → AccountRequest

module _ ⦃a : Accounts⦄ ⦃c : Counters⦄ where
  abbrev pub handle_account : ℕ → AccountRequest → a.Users → Result
  handle_account now (post_register salt salt' email password) users =
      register now salt salt' email password users
  handle_account now (post_login salt email password) users = login now salt email password users
  handle_account now (post_refresh salt token) users = refresh now salt token users
  handle_account now (post_logout token) users = logout now token users

  -- `authLimiter`, which three of the routes share.
  abbrev pub limit_account : ℕ → String → Answers → AccountRequest → c.Store → Reply × c.Store
  limit_account now ip answers (post_logout token) counters = (passed, counters)
  limit_account now ip answers _ counters =
      rate_limit 60 5 answers (limit_key none ip) (now / 1000) counters

  abbrev pub account_passed :
      ℕ → AccountRequest → Reply × c.Store → a.Users → Answer AccountResponse × a.Users × c.Store
  account_passed now r (too_many seconds, counters) users = (limited seconds, users, counters)
  account_passed now r (passed, counters) users =
      let result = handle_account now r users in (settle result.0, result.1, counters)

  -- The router of `/api/auth`.
  unfoldable pub serve_account :
      ℕ
      → String
      → Answers
      → AccountRequest
      → a.Users
      → c.Store
      → Answer AccountResponse × a.Users × c.Store
  serve_account now ip answers r users counters =
      account_passed now r (limit_account now ip answers r counters) users
