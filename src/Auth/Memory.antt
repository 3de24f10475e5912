-- ===== src/Auth/Memory.antt =====
-- Users in memory, with a hash and tokens for tests: they show that what the handlers assume of
-- MongoDB, bcrypt and jsonwebtoken can hold. They stand for no code of the repository.
use Prim.Native.String.{[] as empty, ◌∷◌ as ◌◂◌, slice}
use ai_distributed_job_platf.Prelude.{
  ℕ, zero, suc, ◌<◌, String, ◌≡◌, refl, ap, Bool, false, Option, none, some, ltb, ◌==◌, ==_refl,
  str_eq, str_eq_iff, if◌then◌else◌, arith,
}
use ai_distributed_job_platf.Auth.Tokens.{
  lead, sign, lead-sign, not_empty, sign_present, sign_access, verify_access, verify_access-sign,
  verify_access_expired, sign_access_plain,
}
use ai_distributed_job_platf.Auth.External.{User, Accounts, with_refresh_hash}

pub record Users : Type 0 where
  pub size : ℕ
  pub at : ℕ → User

abbrev pub by_id : ℕ → Users → Option User
by_id i users = if ltb i users.size then some (users.at i) else none

abbrev pub by_email_below : ℕ → String → Users → Option (ℕ × User)
by_email_below zero email users = none
by_email_below (suc k) email users =
    let rest = by_email_below k email users in
    if str_eq (users.at k).email email then some (k, users.at k) else rest

abbrev pub by_email : String → Users → Option (ℕ × User)
by_email email users = by_email_below users.size email users

abbrev pub set_hash : ℕ → Option String → Users → Users
set_hash i h users = record users {
  at = λ j. if i == j then record (users.at j) { refresh_token_hash = h } else users.at j;
}

abbrev pub new_user : String → String → User
new_user email password_hash = record {
  email = email;
  password_hash = password_hash;
  refresh_token_hash = none;
}

abbrev pub insert : Option (ℕ × User) → User → Users → Option (ℕ × User) × Users
insert (some found) user users = (none, users)
insert none user users = (
  some (users.size, user),
  record { size = suc users.size; at = λ j. if users.size == j then user else users.at j },
)

by_email_sound :
    (k : ℕ) (email : String) (users : Users) (id : ℕ) (user : User)
    → by_email_below k email users ≡ some (id, user)
    → (id < k) × (users.at id ≡ user)
by_email_sound zero email users id user h = cc
by_email_sound (suc k) email users id user h = ground (arith, by_email_sound k email users id user)

by_email_set :
    (k id : ℕ) (h : Option String) (email : String) (users : Users) (user : User)
    → by_email_below k email users ≡ some (id, user)
    → by_email_below k email (set_hash id h users)
      ≡ some (id, record user { refresh_token_hash = h })
by_email_set zero id h email users user found = cc
by_email_set (suc k) id h email users user found =
    ground (arith, by_email_set k id h email users user, by_email_sound k email users id user)

pub by_email_sound_lem :
    (email : String) (users : Users) (id : ℕ) (user : User)
    → by_email email users ≡ some (id, user)
    → by_id id users ≡ some user
by_email_sound_lem email users id user h =
    ground (arith, by_email_sound users.size email users id user h)

pub by_id-set :
    (id j : ℕ) (h : Option String) (users : Users)
    → by_id j (set_hash id h users)
      ≡ (if id == j then with_refresh_hash h (by_id j users) else by_id j users)
by_id-set id j h users = ground arith

pub by_email_set_lem :
    (id : ℕ) (h : Option String) (email : String) (users : Users) (user : User)
    → by_email email users ≡ some (id, user)
    → by_email email (set_hash id h users) ≡ some (id, record user { refresh_token_hash = h })
by_email_set_lem id h email users user found = by_email_set users.size id h email users user found

pub inserted :
    (email password_hash : String) (users : Users)
    → by_email email users ≡ none
    → (id : ℕ) × (user : User) × ((insert
          (by_email email users)
          (new_user email password_hash)
          users).0
        ≡ some (id, user))
      × (user.password_hash ≡ password_hash)
      × (by_email email (insert (by_email email users) (new_user email password_hash) users).1
          ≡ some (id, user))
inserted email password_hash users fresh = (
  users.size,
  new_user email password_hash,
  rw fresh refl,
  refl,
  rw fresh (rw (==_refl users.size) (rw ((str_eq_iff email email).1 refl) refl)),
)

abbrev pub read_part : String → String
read_part text = slice text 0 72

abbrev pub hash : String → String
hash text = "h" ◂ read_part text

abbrev pub compare : String → String → Bool
compare text empty = false
compare text (c ◂ stored) = str_eq (read_part text) stored

instance abbrev pub memory_accounts : Accounts
memory_accounts = record {
  Users = Users;
  find_by_id = by_id;
  find_by_email = by_email;
  create = λ email password_hash users.
      insert (by_email email users) (new_user email password_hash) users;
  set_refresh_hash = set_hash;
  hash = λ salt. hash;
  compare = compare;
  read_part = read_part;
  sign_access = sign_access;
  sign_refresh = sign;
  verify_refresh = λ now token. some (lead token);
  verify_access = verify_access;
  find_by_email-sound = by_email_sound_lem;
  find_by_id-set = by_id-set;
  find_by_email-set = by_email_set_lem;
  created = inserted;
  compare-hash = λ salt text stored. refl;
  hash_present = λ salt text. not_empty "h" (read_part text);
  verify-sign = λ id now later soon. ap some (lead-sign id now);
  sign_present = sign_present;
  verify_access-sign = verify_access-sign;
  verify_access_expired = verify_access_expired;
  sign_access_plain = sign_access_plain;
}
