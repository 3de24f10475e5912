-- ===== src/Http/Tests.antt =====
-- Requests to the routes, with accounts, counters and documents in memory.
use ai_distributed_job_platf.Prelude.{
  ℕ, zero, suc, String, ◌≡◌, ◌≢◌, refl, List, [], ◌∷◌, none, some, All, show, arith,
}
use ai_distributed_job_platf.Services.World.{document}
use ai_distributed_job_platf.Services.Memory.{memory}
use ai_distributed_job_platf.Samples.{waiting_job, world_with}
use ai_distributed_job_platf.RateLimiter.Memory.{memory_counters, Keys}
use ai_distributed_job_platf.RateLimiter.Window.{all_answered, InWindow}
use ai_distributed_job_platf.Auth.External.{User}
use ai_distributed_job_platf.Auth.Memory.{Users, hash, memory_accounts}
use ai_distributed_job_platf.Auth.Tokens.{sign_access}
use ai_distributed_job_platf.Http.{
  post_login, identified, authenticate, cancel, post, Request, Server, serve,
}
use ai_distributed_job_platf.Http.Tokens.{bearer}
use ai_distributed_job_platf.Http.Isolation.{serve_isolated}
use ai_distributed_job_platf.RateLimiter.{limit_key}
use ai_distributed_job_platf.Http.Guesses.{Call, IsGuess, call_seconds, guesses, guesses-min}
use ai_distributed_job_platf.Http.Limits.{admitted, seconds, IsSubmission, admitted-min}

abbrev token : String
token = sign_access 3 "a@b.c" 1000

-- User 3 asks to cancel the job of user 7.
abbrev intrusion : Request
intrusion = record {
  now = 2000;
  authorization = some (bearer token);
  ip = "::1";
  answers = all_answered;
  job_request = cancel 0;
}

abbrev no_keys : Keys
no_keys key = none

abbrev server : Server
server = record { world = world_with waiting_job; counters = no_keys }

token_of_3 : authenticate 2000 (some (bearer token)) ≡ identified 3 "a@b.c"
unfolding authenticate
token_of_3 = refl

not_of_7 : (email : String) → authenticate 2000 (some (bearer token)) ≢ identified 7 email
not_of_7 email e = ground (arith, token_of_3, e)

serve_isolated_example : document 0 (serve show intrusion server).1.world ≡ some waiting_job
serve_isolated_example = serve_isolated 0 waiting_job show intrusion server refl not_of_7

abbrev submission : Request
submission = record intrusion {
  job_request = post (some "PONG") (record {
    type_name = some "send-email";
    payload = none;
    priority = none;
    idempotency_key = some "k1";
    timeout_ms = none;
    max_attempts = none;
    scheduled_for = none;
  });
}

-- The same submission a number of times, at the same moment.
abbrev repeated : ℕ → List Request
repeated zero = []
repeated (suc n) = submission ∷ repeated n

is_submission : IsSubmission show 3 submission
is_submission = record {
  email = "a@b.c";
  token = token_of_3;
  pong = some "PONG";
  submission = _;
  posted = refl;
  answered = refl;
}

All-submissions : (n : ℕ) → All (IsSubmission show 3) (repeated n)
All-submissions zero = tt
All-submissions (suc n) = (is_submission, All-submissions n)

at_once : (n : ℕ) → InWindow 2 (some 62) (seconds (repeated n))
at_once zero = tt
at_once (suc n) = (omega arith, omega arith, at_once n)

-- Of eleven submissions, ten are admitted.
admitted-min_example : admitted show (repeated 11) server ≡ 10
admitted-min_example =
    admitted-min show 3 submission (repeated 10) server (All-submissions 11) refl (at_once 10)

abbrev session : User
session = record { email = "a@b.c"; password_hash = hash "secret"; refresh_token_hash = none }

abbrev users : Users
users = record { size = 4; at = λ j. session }

-- Six logins in a minute, of which five are tried.
abbrev login_call : Call
login_call = record {
  now = 2000;
  answers = all_answered;
  asked = post_login 5 (some "a@b.c") (some "guess");
}

abbrev calls : ℕ → List Call
calls zero = []
calls (suc n) = login_call ∷ calls n

All-calls : (n : ℕ) → All IsGuess (calls n)
All-calls zero = tt
All-calls (suc n) = (record { counted = refl; answered = refl }, All-calls n)

calls_at_once : (n : ℕ) → InWindow 2 (some 62) (call_seconds (calls n))
calls_at_once zero = tt
calls_at_once (suc n) = (omega arith, omega arith, calls_at_once n)

guesses-min_example : guesses "::1" (calls 6) users no_keys ≡ 5
guesses-min_example =
    guesses-min "::1" login_call (calls 5) users no_keys (All-calls 6) (unfold limit_key in refl)
      (calls_at_once 5)
