-- ===== src/Api/Accounts/Reset.antt =====
-- api/auth_public.py: from a forgotten password to the next login.
use goderash.Common.{
  ℕ, ◌+◌, ◌<◌, String, eq_iff, eq_refl, true, false, ◌&&◌, ◌==◌, ◌≡◌, ◌≢◌, refl, some, List, [],
  ◌∷◌, ◌++◌, any, keep, keep-append, arith, returned, raised,
}
use goderash.Security.{PasswordHasher, hash_password, verify_password}
use goderash.Database.{
  Database, User, AuthToken, http_exception, update_where, insert, add_password_reset, token_clash,
  is_none,
}
use goderash.Api.Auth.{hash_key}
use goderash.Api.Identity.{
  Services, TokenPair, PairDraw, with_email, normalized, issue_pair, authenticate, login,
}
use goderash.Api.Accounts.{
  is_usable, new_token, use_token, reset_ttl, forgot_password, reset_password,
}

-- The row of a user after the reset.
abbrev renew : String → User → User
renew password_hash u = record u { password_hash = password_hash }

keep-renew_none :
    (email hash : String) (id : ℕ) (users : List User)
    → with_email email users ≡ []
    → with_email email (update_where (λ u. u.user_id == id) (renew hash) users) ≡ []
keep-renew_none email hash id [] h = refl
keep-renew_none email hash id (u ∷ users) h = ground (arith, keep-renew_none email hash id users)

with_email-renew :
    (email hash : String) (user : User) (users : List User)
    → with_email email users ≡ user ∷ []
    → with_email email (update_where (λ u. u.user_id == user.user_id) (renew hash) users)
      ≡ renew hash user ∷ []
with_email-renew email hash user [] h = cc
with_email-renew email hash user (u ∷ users) h =
    ground
      (arith, with_email-renew email hash user users, keep-renew_none email hash user.user_id users)

has_user-with_email :
    (email : String) (user : User) (users : List User)
    → with_email email users ≡ user ∷ []
    → any (λ u. u.user_id == user.user_id) users ≡ true
has_user-with_email email user [] h = cc
has_user-with_email email user (u ∷ users) h = ground (arith, has_user-with_email email user users)

-- No token of the table clashes with a new one.
module _ (row : AuthToken) where
  keep-usable_none :
      (now : ℕ) (rows : List AuthToken)
      → any (token_clash row) rows ≡ false
      → keep (is_usable now row.token_hash) rows ≡ []
  keep-usable_none now [] h = refl
  keep-usable_none now (t ∷ rows) h = ground (arith, keep-usable_none now rows)

  use_token-append :
      (now time : ℕ) (rows : List AuthToken)
      → any (token_clash row) rows ≡ false
      → keep (is_usable time row.token_hash) (use_token row.token_id now (rows ++ row ∷ [])) ≡ []
  use_token-append now time [] h = ground (arith, eq_refl row.token_hash)
  use_token-append now time (t ∷ rows) h = ground (arith, use_token-append now time rows)

verify_password-hashed :
    (ph : PasswordHasher) (password : String)
    → password ≢ ""
    → ph.hash password ≢ ""
    → ph.verify (ph.hash password) password ≡ true
    → verify_password ph password (ph.hash password) ≡ true
unfolding verify_password
verify_password-hashed ph password nonempty hashed verifies =
    ground (arith, eq_iff password "", eq_iff (ph.hash password) "")

module _ {F : Type 0} (sv : Services) where
  reset_password-row :
      (now : ℕ) (raw new_password : String) (row : AuthToken) (db : Database F)
      → keep (is_usable now (hash_key sv.crypto raw)) db.password_resets ≡ row ∷ []
      → new_password ≢ ""
      → reset_password sv now raw new_password db
        ≡ returned (
          tt,
          record db {
            password_resets = use_token row.token_id now db.password_resets;
            users =
                update_where
                  (λ u. u.user_id == row.user_id)
                  (renew (sv.hasher.hash new_password))
                  db.users;
          },
        )
  unfolding reset_password hash_password
  reset_password-row now raw new_password row db one nonempty =
      rw one (ground (arith, eq_iff new_password ""))

  reset_password-refused :
      (now : ℕ) (raw new_password : String) (db : Database F)
      → keep (is_usable now (hash_key sv.crypto raw)) db.password_resets ≡ []
      → reset_password sv now raw new_password db ≡ raised (http_exception 400)
  unfolding reset_password
  reset_password-refused now raw new_password db none_left = rw none_left refl

  login-row :
      (now : ℕ) (draw : PairDraw) (address password : String) (user : User) (db : Database F)
      → with_email (normalized sv address) db.users ≡ user ∷ []
      → user.is_active ≡ true
      → verify_password sv.hasher password user.password_hash ≡ true
      → (sv.settings.require_email_verification && is_none user.email_verified_at) ≡ false
      → (last : Database F) × (login sv now draw address password db
          ≡ returned (issue_pair sv now draw user, last))
  unfolding login authenticate
  login-row now draw address password user db one active right verified = (
    record db {
      users =
          update_where (λ u. u.user_id == user.user_id) (λ u. record u { last_login_at = some now })
            db.users;
    },
    rw (one, active, right, verified) refl,
  )

  -- An active user, the only one of the address, who asks for a reset and comes back within the
  -- hour with the mailed token and a new password: each of forgot_password, reset_password and
  -- login with the new password returns, and the token is refused after that at any time. The
  -- token's identifier and hash are new to the table, the password is not empty, the hasher verifies
  -- what it hashed, and the address is verified where the settings ask for it.
  pub reset_password-login :
      (now later time : ℕ) (token_id : ℕ) (raw address new_password : String) (draw : PairDraw)
      (user : User) (db : Database F)
      → with_email (normalized sv address) db.users ≡ user ∷ []
      → user.is_active ≡ true
      → (sv.settings.require_email_verification && is_none user.email_verified_at) ≡ false
      → any
          (token_clash (new_token token_id user.user_id (hash_key sv.crypto raw) (now + reset_ttl)))
          db.password_resets
        ≡ false
      → later < now + 3600
      → new_password ≢ ""
      → sv.hasher.hash new_password ≢ ""
      → sv.hasher.verify (sv.hasher.hash new_password) new_password ≡ true
      → (asked : Database F) × (changed : Database F) × (last : Database F) × (tokens : TokenPair)
        × (forgot_password sv now token_id raw address db ≡ returned (tt, asked))
        × (reset_password sv later raw new_password asked ≡ returned (tt, changed))
        × (login sv later draw address new_password changed ≡ returned (tokens, last))
        × (reset_password sv time raw new_password changed ≡ raised (http_exception 400))
  unfolding forgot_password add_password_reset insert
  reset_password-login now later time token_id raw address new_password draw user db one active
        verified fresh early nonempty hashed verifies =
      let row = new_token token_id user.user_id (hash_key sv.crypto raw) (now + reset_ttl) in
      let asked : Database F = record db { password_resets = db.password_resets ++ row ∷ [] } in
      let changed : Database F = record db {
        password_resets = use_token token_id later (db.password_resets ++ row ∷ []);
        users =
            update_where (λ u. u.user_id == user.user_id) (renew (sv.hasher.hash new_password))
              db.users;
      } in
      let (last, in_again) =
        login-row later draw address new_password (renew (sv.hasher.hash new_password) user) changed
          (with_email-renew (normalized sv address) (sv.hasher.hash new_password) user db.users one)
          active (verify_password-hashed sv.hasher new_password nonempty hashed verifies)
          verified in
      (
        asked,
        changed,
        last,
        _,
        rw (one, active, has_user-with_email (normalized sv address) user db.users one, fresh) refl,
        reset_password-row later raw new_password row asked
            (rw
              (
                keep-append (is_usable later (hash_key sv.crypto raw)) db.password_resets
                    (row ∷ []),
                keep-usable_none row later db.password_resets fresh,
              )
              (ground (arith, eq_refl (hash_key sv.crypto raw))))
            nonempty,
        in_again,
        reset_password-refused time raw new_password changed
            (use_token-append row later time db.password_resets fresh),
      )
