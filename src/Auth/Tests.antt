-- ===== src/Auth/Tests.antt =====
-- Runs of modules/auth/auth.controller.js with users in memory.
use ai_distributed_job_platf.Prelude.{ℕ, ◌≡◌, refl, none, some, ok}
use ai_distributed_job_platf.Auth.{respond, tokens, refresh}
use ai_distributed_job_platf.Auth.External.{User}
use ai_distributed_job_platf.Auth.Memory.{Users, hash, memory_accounts}
use ai_distributed_job_platf.Auth.Tokens.{sign, sign_access}
use ai_distributed_job_platf.Auth.Sessions.{refresh_replayed}

abbrev nobody : Users
nobody = record {
  size = 0;
  at = λ id. record { email = ""; password_hash = ""; refresh_token_hash = none };
}

-- The user `id` logged in at the time 1.
abbrev session : ℕ → User
session id = record {
  email = "a@b.c";
  password_hash = hash "secret";
  refresh_token_hash = some (hash (sign id 1));
}

abbrev users : ℕ → Users
users id = record { size = 100; at = λ j. session id }

-- The tokens of user 80 differ behind their 72nd byte only.
refresh_replayed_example :
    (refresh 4 7 (some (sign 80 1)) (refresh 2 6 (some (sign 80 1)) (users 80)).1).0
    ≡ ok (respond 200 (tokens none (sign_access 80 "a@b.c" 4) (sign 80 4)))
refresh_replayed_example =
    refresh_replayed 80 (session 80) (users 80) refl 2 4 5 6 7 (sign 80 1) refl refl refl refl refl
