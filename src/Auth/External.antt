-- ===== src/Auth/External.antt =====
-- What the accounts stand on and the repository does not implement: the MongoDB collection of users,
-- bcrypt and JSON web tokens.
use ai_distributed_job_platf.Prelude.{
  ℕ, ◌+◌, ◌/◌, ◌≤◌, ◌<◌, String, ◌≡◌, Bool, Option, none, some, ◌==◌, str_eq, has_char,
  if◌then◌else◌,
}

-- models/user.model.js, without the id under which a user is kept.
pub record User : Type 0 where
  pub email : String
  pub password_hash : String
  pub refresh_token_hash : Option String

-- A user with another hash of a refresh token.
abbrev pub with_refresh_hash : Option String → Option User → Option User
with_refresh_hash hash none = none
with_refresh_hash hash (some user) = some (record user { refresh_token_hash = hash })

pub record Accounts : Type 1 where
  pub Users : Type 0
  pub find_by_id : ℕ → Users → Option User
  -- `findOne({ email })`, the address as the schema normalises it.
  pub find_by_email : String → Users → Option (ℕ × User)
  -- `create({ email, passwordHash })`: `none` where the unique index refuses the address.
  pub create : String → String → Users → Option (ℕ × User) × Users
  pub set_refresh_hash : ℕ → Option String → Users → Users
  -- `bcrypt.hash` with a salt, and `bcrypt.compare`.
  pub hash : ℕ → String → String
  pub compare : String → String → Bool
  -- What bcrypt reads of a text: its first 72 bytes.
  pub read_part : String → String
  -- `jwt.sign` at a time, and `jwt.verify`; `none` is a throw.
  pub sign_access : ℕ → String → ℕ → String
  pub sign_refresh : ℕ → ℕ → String
  pub verify_refresh : ℕ → String → Option ℕ
  pub verify_access : ℕ → String → Option (ℕ × String)
  pub find_by_email-sound :
      (email : String) (users : Users) (id : ℕ) (user : User)
      → find_by_email email users ≡ some (id, user)
      → find_by_id id users ≡ some user
  pub find_by_id-set :
      (id j : ℕ) (h : Option String) (users : Users)
      → find_by_id j (set_refresh_hash id h users)
        ≡ (if id == j then with_refresh_hash h (find_by_id j users) else find_by_id j users)
  pub find_by_email-set :
      (id : ℕ) (h : Option String) (email : String) (users : Users) (user : User)
      → find_by_email email users ≡ some (id, user)
      → find_by_email email (set_refresh_hash id h users)
        ≡ some (id, record user { refresh_token_hash = h })
  pub created :
      (email password_hash : String) (users : Users)
      → find_by_email email users ≡ none
      → (id : ℕ) × (user : User) × ((create email password_hash users).0 ≡ some (id, user))
        × (user.password_hash ≡ password_hash)
        × (find_by_email email (create email password_hash users).1 ≡ some (id, user))
  pub compare-hash :
      (salt : ℕ) (text stored : String)
      → compare text (hash salt stored) ≡ str_eq (read_part text) (read_part stored)
  pub hash_present : (salt : ℕ) (text : String) → str_eq (hash salt text) "" ≡ Bool.false
  -- A refresh token is valid for seven days, counted in whole seconds of the clock.
  pub verify-sign :
      (id now later : ℕ)
      → later / 1000 < now / 1000 + 604_800
      → verify_refresh later (sign_refresh id now) ≡ some id
  pub sign_present : (id now : ℕ) → str_eq (sign_refresh id now) "" ≡ Bool.false
  -- An access token is valid for fifteen minutes, and no longer. It has no white space.
  pub verify_access-sign :
      (id : ℕ) (email : String) (now later : ℕ)
      → later / 1000 < now / 1000 + 900
      → verify_access later (sign_access id email now) ≡ some (id, email)
  pub verify_access_expired :
      (id : ℕ) (email : String) (now later : ℕ)
      → now / 1000 + 900 ≤ later / 1000
      → verify_access later (sign_access id email now) ≡ none
  pub sign_access_plain :
      (id : ℕ) (email : String) (now : ℕ) → has_char " " (sign_access id email now) ≡ Bool.false
