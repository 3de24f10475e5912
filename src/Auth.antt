-- ===== src/Auth.antt =====
-- src/modules/auth/auth.controller.js and src/modules/auth/auth.utils.js: accounts and tokens. A
-- handler is given what it reads of the request, the time, and the salts that bcrypt draws; it
-- returns the answer, or throws, and the users.
pub mod External
pub mod Login
pub mod Sessions
pub mod Tokens
pub mod Memory
mod Tests
use ai_distributed_job_platf.Prelude.{
  ℕ, String, Bool, Option, none, some, Error, plain_error, Outcome, ok, threw, str_eq,
  if◌then◌else◌,
}
use External.{User, Accounts}

pub data Body : Type 0 where
  error : String → Body
  message : String → Body
  -- `{ message, accessToken, refreshToken }`; `refresh` sends no message.
  tokens : Option String → String → String → Body

pub record Response : Type 0 where
  pub status : ℕ
  pub body : Body

abbrev pub respond : ℕ → Body → Response
respond status body = record { status = status; body = body }

-- A text that is there and not empty, as `!text` tests it.
abbrev pub given : Option String → Option String
given none = none
given (some text) = if str_eq text "" then none else some text

abbrev pub invalid_login : Response
invalid_login = respond 401 (error "Invalid email or password")

module _ ⦃a : Accounts⦄ where
  abbrev pub Result : Type 0
  Result = Outcome Response × a.Users

  abbrev pub answer : ℕ → Body → a.Users → Result
  answer status body users = (ok (respond status body), users)

  -- New tokens for a user, the refresh token's hash being stored.
  abbrev pub issue : ℕ → Option String → ℕ → ℕ → ℕ → User → a.Users → Result
  issue status text now salt id user users =
      let access_token = a.sign_access id user.email now in
      let refresh_token = a.sign_refresh id now in
      answer status (tokens text access_token refresh_token)
        (a.set_refresh_hash id (some (a.hash salt refresh_token)) users)

  abbrev pub register_created : ℕ → ℕ → Option (ℕ × User) × a.Users → Result
  register_created now salt (none, users) =
      (threw (plain_error "E11000 duplicate key error collection"), users)
  register_created now salt (some (id, user), users) =
      issue 201 (some "Registered successfully") now salt id user users

  abbrev pub register_unless_found :
      ℕ → ℕ → ℕ → String → String → Option (ℕ × User) → a.Users → Result
  register_unless_found now salt salt' email password (some found) users =
      answer 409 (error "An account with this email already exists") users
  register_unless_found now salt salt' email password none users =
      register_created now salt' (a.create email (a.hash salt password) users)

  -- `POST /api/auth/register`.
  abbrev pub register_given : ℕ → ℕ → ℕ → Option String → Option String → a.Users → Result
  register_given now salt salt' (some email) (some password) users =
      register_unless_found now salt salt' email password (a.find_by_email email users) users
  register_given now salt salt' (some email) none users =
      answer 400 (error "email and password are required") users
  register_given now salt salt' none password users =
      answer 400 (error "email and password are required") users

  unfoldable pub register : ℕ → ℕ → ℕ → Option String → Option String → a.Users → Result
  register now salt salt' email password users =
      register_given now salt salt' (given email) (given password) users

  abbrev pub login_found : ℕ → ℕ → String → Option (ℕ × User) → a.Users → Result
  login_found now salt password none users = (ok invalid_login, users)
  login_found now salt password (some (id, user)) users =
      if a.compare password user.password_hash
      then issue 200 (some "Logged in successfully") now salt id user users
      else (ok invalid_login, users)

  abbrev pub login_given : ℕ → ℕ → Option String → Option String → a.Users → Result
  login_given now salt (some email) (some password) users =
      login_found now salt password (a.find_by_email email users) users
  login_given now salt (some email) none users =
      answer 400 (error "email and password are required") users
  login_given now salt none password users =
      answer 400 (error "email and password are required") users

  -- `POST /api/auth/login`.
  unfoldable pub login : ℕ → ℕ → Option String → Option String → a.Users → Result
  login now salt email password users = login_given now salt (given email) (given password) users

  abbrev pub refresh_matched : ℕ → ℕ → String → ℕ → User → Option String → a.Users → Result
  refresh_matched now salt token id user none users =
      answer 401 (error "Invalid refresh token") users
  refresh_matched now salt token id user (some stored) users =
      if str_eq stored ""
      then answer 401 (error "Invalid refresh token") users
      else if a.compare token stored
      then issue 200 none now salt id user users
      else answer 401 (error "Refresh token has been revoked") users

  abbrev pub refresh_found : ℕ → ℕ → String → ℕ → Option User → a.Users → Result
  refresh_found now salt token id none users = answer 401 (error "Invalid refresh token") users
  refresh_found now salt token id (some user) users =
      refresh_matched now salt token id user user.refresh_token_hash users

  abbrev pub refresh_verified : ℕ → ℕ → String → Option ℕ → a.Users → Result
  refresh_verified now salt token none users =
      answer 401 (error "Invalid or expired refresh token") users
  refresh_verified now salt token (some id) users =
      refresh_found now salt token id (a.find_by_id id users) users

  abbrev pub refresh_given : ℕ → ℕ → Option String → a.Users → Result
  refresh_given now salt none users = answer 400 (error "refreshToken is required") users
  refresh_given now salt (some token) users =
      refresh_verified now salt token (a.verify_refresh now token) users

  -- `POST /api/auth/refresh`.
  unfoldable pub refresh : ℕ → ℕ → Option String → a.Users → Result
  refresh now salt token users = refresh_given now salt (given token) users

  abbrev pub logout_verified : Option ℕ → a.Users → Result
  logout_verified none users = answer 200 (message "Logged out successfully") users
  logout_verified (some id) users =
      answer 200 (message "Logged out successfully") (a.set_refresh_hash id none users)

  abbrev pub logout_given : ℕ → Option String → a.Users → Result
  logout_given now none users = answer 400 (error "refreshToken is required") users
  logout_given now (some token) users = logout_verified (a.verify_refresh now token) users

  -- `POST /api/auth/logout`.
  unfoldable pub logout : ℕ → Option String → a.Users → Result
  logout now token users = logout_given now (given token) users
