-- ===== src/Auth/Sessions.antt =====
-- Refreshing and ending a session (modules/auth/auth.controller.js).
use ai_distributed_job_platf.Prelude.{
  ℕ, String, ◌≡◌, refl, ap, ◌∙◌, true, Option, none, some, ok, ==_refl, str_eq_iff,
}
use ai_distributed_job_platf.Auth.{respond, tokens, given, refresh}
use ai_distributed_job_platf.Auth.External.{User, Accounts, with_refresh_hash}

module _ ⦃a : Accounts⦄ where
  stored_after :
      (id : ℕ) (h : Option String) (users : a.Users) (user : User)
      → a.find_by_id id users ≡ some user
      → a.find_by_id id (a.set_refresh_hash id h users)
        ≡ some (record user { refresh_token_hash = h })
  stored_after id h users user here =
      a.find_by_id-set id id h users ∙ rw (==_refl id) (ap (with_refresh_hash h) here)

  module _ (id : ℕ) (user : User) (users : a.Users) (here : a.find_by_id id users ≡ some user) where
    refresh_accepts :
        (now salt salt' : ℕ) (token current : String)
        → given (some token) ≡ some token
        → a.verify_refresh now token ≡ some id
        → user.refresh_token_hash ≡ some (a.hash salt current)
        → a.read_part token ≡ a.read_part current
        → refresh now salt' (some token) users ≡ (
          ok (respond 200 (tokens none (a.sign_access id user.email now) (a.sign_refresh id now))),
          a.set_refresh_hash id (some (a.hash salt' (a.sign_refresh id now))) users,
        )
    unfolding refresh
    refresh_accepts now salt salt' token current g valid stored same =
        let matches : a.compare token (a.hash salt current) ≡ true =
          a.compare-hash salt token current ∙ (str_eq_iff _ _).1 same in
        rw (g, valid, here, stored, a.hash_present salt current, matches) refl

  module _ (id : ℕ) (user : User) (users : a.Users) (here : a.find_by_id id users ≡ some user) where
    -- If bcrypt reads the same part of the old and of the new token, as it does when they differ
    -- behind the 72nd byte only, the rotation revokes nothing: the old token is accepted again and
    -- again gives new tokens.
    pub refresh_replayed :
        (now later salt salt' salt'' : ℕ) (token : String)
        → given (some token) ≡ some token
        → a.verify_refresh now token ≡ some id
        → a.verify_refresh later token ≡ some id
        → user.refresh_token_hash ≡ some (a.hash salt token)
        → a.read_part token ≡ a.read_part (a.sign_refresh id now)
        → (refresh later salt'' (some token) (refresh now salt' (some token) users).1).0
          ≡ ok (
              respond 200
                (tokens none (a.sign_access id user.email later) (a.sign_refresh id later)))
    refresh_replayed now later salt salt' salt'' token g valid valid' stored same =
        let first =
          refresh_accepts id user users here now salt salt' token token g valid stored refl in
        let new = some (a.hash salt' (a.sign_refresh id now)) in
        rw first (
          ap (λ r. r.0)
            (refresh_accepts id (record user { refresh_token_hash = new })
              (a.set_refresh_hash id new users) (stored_after id new users user here) later salt'
              salt'' token (a.sign_refresh id now) g valid' refl same))
