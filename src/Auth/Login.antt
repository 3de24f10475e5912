-- ===== src/Auth/Login.antt =====
-- Registering and logging in (modules/auth/auth.controller.js).
use ai_distributed_job_platf.Prelude.{
  ℕ, String, ◌≡◌, ◌⊎◌, inl, inr, refl, ap, ◌∙◌, true, false, none, some, ok, str_eq_iff,
}
use ai_distributed_job_platf.Auth.{respond, tokens, given, invalid_login, register, login}
use ai_distributed_job_platf.Auth.External.{User, Accounts}

module _ ⦃a : Accounts⦄ where
  -- A login does not tell whether an address is registered: for an address without an account, and
  -- for an account whose password hash does not match, the answer is the same, and no user changes.
  login_uniform :
      (now salt : ℕ) (email password : String) (users : a.Users)
      → given (some email) ≡ some email
      → given (some password) ≡ some password
      → (a.find_by_email email users ≡ none)
        ⊎ ((id : ℕ) × (user : User) × (a.find_by_email email users ≡ some (id, user))
            × (a.compare password user.password_hash ≡ false))
      → login now salt (some email) (some password) users ≡ (ok invalid_login, users)
  unfolding login
  login_uniform now salt email password users e p (inl unknown) = rw (e, p, unknown) refl
  login_uniform now salt email password users e p (inr (id, user, found, wrong)) =
      rw (e, p, found, wrong) refl

  -- Who registers an address that has no account, neither it nor the password being empty, gets
  -- tokens, and can then log in with the same address and password; afterwards the hash of the
  -- second refresh token is the one that is stored.
  register-login :
      (now later salt salt' salt'' : ℕ) (email password : String) (users : a.Users)
      → given (some email) ≡ some email
      → given (some password) ≡ some password
      → a.find_by_email email users ≡ none
      → let (registered, users₁) = register now salt salt' (some email) (some password) users in
        let (logged_in, users₂) = login later salt'' (some email) (some password) users₁ in
        (id : ℕ) × (user : User) × (registered
          ≡ ok (
              respond 201 (
                tokens
                  (some "Registered successfully")
                  (a.sign_access id user.email now)
                  (a.sign_refresh id now))))
        × (logged_in
            ≡ ok (
                respond 200 (
                  tokens
                    (some "Logged in successfully")
                    (a.sign_access id user.email later)
                    (a.sign_refresh id later))))
        × (a.find_by_email email users₂
            ≡ some (
              id,
              record user { refresh_token_hash = some (a.hash salt'' (a.sign_refresh id later)) },
            ))
  unfolding register login
  register-login now later salt salt' salt'' email password users e p fresh =
      let (id, user, made, hashed, found) = a.created email (a.hash salt password) users fresh in
      let users₀ = (a.create email (a.hash salt password) users).1 in
      let token = some (a.hash salt' (a.sign_refresh id now)) in
      let again = a.find_by_email-set id token email users₀ user found in
      let right : a.compare password user.password_hash ≡ true =
        ap (a.compare password) hashed
        ∙ (a.compare-hash salt password password ∙ (str_eq_iff _ _).1 refl) in
      (
        id,
        user,
        rw (e, p, fresh, made) refl,
        rw (e, p, fresh, made, again, right) refl,
        rw (e, p, fresh, made, again, right)
            (a.find_by_email-set id (some (a.hash salt'' (a.sign_refresh id later))) email
              (a.set_refresh_hash id token users₀) (record user { refresh_token_hash = token })
              again),
      )
