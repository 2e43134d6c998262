-- ===== src/Auth/Progress.antt =====
-- What calls answer when no effect fails.
use go_spark.Base.{
  ℕ, suc, Text, ◌≡◌, refl, false, trim_space, is_empty, Option, none, some, find_if, arith,
}
use go_spark.Schema.{User, Token}
use go_spark.Effect.{
  Env, World, Result, ok, err, ◌>>=◌, is_no_rows, invalid_credentials, invalid_password_reset_token,
}
use go_spark.Queries.Users.{by_email, get_user_by_email, update_user_password_hash}
use go_spark.Queries.Sessions.{delete_sessions_by_user_id}
use go_spark.Queries.Tokens.{is_valid, consume_password_reset_token}
use go_spark.AuthStore.Accounts
use go_spark.AuthStore.Tokens
use go_spark.Auth.Service.{AuthService, hash_token, hash_password, validate_password}
use go_spark.Auth.Addresses.{normalize_email}
use go_spark.Auth.Sessions.{login}
use go_spark.Auth.Passwords.{reset_password_with_token, set_password_and_revoke_sessions}
use go_spark.Auth.Revocation.{is_match}

-- The answer to a reset, by the token that is found.
abbrev pub answer_of : Option Token → Result (Unit {0})
answer_of none = err invalid_password_reset_token
answer_of (some t) = ok tt

module _ (env : Env) (s : AuthService) (works : (n : ℕ) → env.fails n ≡ false) where
  rejects :
      (email password : Text) (w : World) (o : Option User)
      → find_if (by_email (normalize_email s.platform email)) w.db.users ≡ o
      → is_match s password o ≡ false
      → (login env s email password w).0 ≡ err invalid_credentials
  unfolding login ◌>>=◌ Accounts.get_user_by_email get_user_by_email is_no_rows
  rejects email password w none q m = ground (arith, q, works w.step)
  rejects email password w (some u) q m = ground (arith, q, m, works w.step)

  -- When no effect fails, a login with an unknown address and one with a wrong password get the
  -- same answer, which does not tell whether the address has an account.
  pub login_rejects :
      (email password : Text) (w : World)
      → is_match s password (find_if (by_email (normalize_email s.platform email)) w.db.users)
        ≡ false
      → (login env s email password w).0 ≡ err invalid_credentials
  login_rejects email password w m = rejects email password w _ refl m

  answers :
      (token new : Text) (w : World) (o : Option Token)
      → find_if
          (is_valid (hash_token s (trim_space token)) (env.clock w.step))
          w.db.password_reset_tokens
        ≡ o
      → is_empty (trim_space token) ≡ false
      → validate_password s new ≡ ok tt
      → (reset_password_with_token env s token new w).0 ≡ answer_of o
  unfolding reset_password_with_token ◌>>=◌ Tokens.consume_password_reset_token
      consume_password_reset_token is_no_rows set_password_and_revoke_sessions hash_password
      Accounts.set_password_and_revoke_sessions update_user_password_hash delete_sessions_by_user_id
  answers token new w none q full long = ground (arith, full, long, q, works (suc w.step))
  answers token new w (some t) q full long = ground (
    arith,
    full,
    long,
    q,
    works (suc w.step),
    works (suc (suc w.step)),
    works (suc (suc (suc w.step))),
    works (suc (suc (suc (suc w.step)))),
    works (suc (suc (suc (suc (suc w.step))))),
    works (suc (suc (suc (suc (suc (suc w.step)))))),
  )

  -- When no effect fails, the reset with a token and a password of a permitted length succeeds if
  -- the token's hash is stored, unconsumed and not expired, and else is refused as a bad token.
  pub reset_password_answers :
      (token new : Text) (w : World)
      → is_empty (trim_space token) ≡ false
      → validate_password s new ≡ ok tt
      → (reset_password_with_token env s token new w).0
        ≡ answer_of (
            find_if
              (is_valid (hash_token s (trim_space token)) (env.clock w.step))
              w.db.password_reset_tokens)
  reset_password_answers token new w full long = answers token new w _ refl full long
