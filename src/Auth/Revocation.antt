-- ===== src/Auth/Revocation.antt =====
-- ChangePassword and ResetPasswordWithToken (internal/auth/auth.go) and the sessions of the user.
use go_spark.Base.{
  ℕ, Text, ◌≡◌, refl, true, false, not, arith, All, Option, none, some, find_if, keep_if, delete_if,
  update_if, suc, ◌≢◌, Bool, trim_space,
}
use go_spark.Schema.{User, PasswordResetToken, Db}
use go_spark.Effect.{Env, World, ok, ◌>>=◌, tick}
use go_spark.Queries.Users.{by_id, update_user_password_hash}
use go_spark.Queries.Sessions.{owned_by, delete_sessions_by_user_id}
use go_spark.Queries.Tokens.{is_valid, consumed, consume_password_reset_token}
use go_spark.AuthStore.Accounts
use go_spark.AuthStore.Tokens
use go_spark.Auth.Service.{AuthService, hash_password, hash_token, password_matches}
use go_spark.Auth.Passwords.{set_password_and_revoke_sessions, reset_password_with_token}

-- The database with a password hash set and the user's sessions gone.
abbrev password_set : Text → ℕ → Db → Db
password_set hash user d = record d {
  users = update_if (by_id user) (λ u. record u { password_hash = hash }) d.users;
  sessions = delete_if (owned_by user) d.sessions;
}

-- The database with a password reset token consumed.
abbrev pub spent_db : Text → ℕ → Db → Db
spent_db hash at d = record d {
  password_reset_tokens = update_if (is_valid hash at) (consumed at) d.password_reset_tokens;
}

-- Whether a user was found whose password it is.
abbrev pub is_match : AuthService → Text → Option User → Bool
is_match s password none = false
is_match s password (some u) = password_matches s u.password_hash password

module _ (env : Env) where
  store_sets :
      (user : ℕ) (hash : Text) (w : World)
      → (Accounts.set_password_and_revoke_sessions env user hash w).0 ≡ ok tt
      → (Accounts.set_password_and_revoke_sessions env user hash w).1.db
        ≡ password_set hash user w.db
  unfolding Accounts.set_password_and_revoke_sessions ◌>>=◌ update_user_password_hash
      delete_sessions_by_user_id
  store_sets user hash w h = ground arith

  service_sets :
      (s : AuthService) (user : ℕ) (password : Text) (w : World)
      → (set_password_and_revoke_sessions env s user password w).0 ≡ ok tt
      → (set_password_and_revoke_sessions env s user password w).1.db
        ≡ password_set (s.hasher.hash (env.random w.step) password) user w.db
  unfolding set_password_and_revoke_sessions ◌>>=◌ hash_password
  service_sets s user password w h =
      ground (arith, store_sets user (s.hasher.hash (env.random w.step) password) (tick w))

module _ (s : AuthService) where
  -- What a database looks like after the password of a user was set: no session of the user is
  -- left, the sessions of the others are, the hash is of the new password, and nothing but users
  -- and sessions has changed.
  abbrev pub Revoked : ℕ → Text → Db → Db → Type 0
  Revoked id password d d' =
      All (λ r. r.user_id ≢ id) d'.sessions
      × (d'.sessions ≡ keep_if (λ r. not (owned_by id r)) d.sessions)
      × All (λ u. u.id ≡ id → password_matches s u.password_hash password ≡ true) d'.users
      × (record d' { users = d.users; sessions = d.sessions } ≡ d)

module _ (env : Env) (s : AuthService) where
  pub reset_sets :
      (token new : Text) (w : World) (o : Option PasswordResetToken)
      → find_if
          (is_valid (hash_token s (trim_space token)) (env.clock w.step))
          w.db.password_reset_tokens
        ≡ o
      → (reset_password_with_token env s token new w).0 ≡ ok tt
      → (r : PasswordResetToken) × (o ≡ some r)
        × ((reset_password_with_token env s token new w).1.db
            ≡ password_set
                (s.hasher.hash (env.random (suc (suc w.step))) new)
                r.user_id
                (spent_db (hash_token s (trim_space token)) (env.clock w.step) w.db))
  unfolding reset_password_with_token ◌>>=◌ Tokens.consume_password_reset_token
      consume_password_reset_token
  reset_sets token new w none e h = absurd (ground (arith, e))
  reset_sets token new w (some r) e h = (
    r,
    refl,
    ground (
      arith,
      e,
      service_sets env s r.user_id new (
          tick (
            tick (record w {
              db = spent_db (hash_token s (trim_space token)) (env.clock w.step) w.db;
            }))),
    ),
  )
