-- ===== src/Auth/Passwords.antt =====
-- The change and the reset of a password.
use go_spark.Base.{ℕ, ◌+◌, Text, trim_space, is_empty, not}
use go_spark.Schema.{User}
use go_spark.Effect.{
  Env, Action, ◌>>=◌, ◌>>◌, pure, raise, lift, guard, find_or, now, invalid_email,
  current_password_incorrect, password_unchanged, invalid_password_reset_token,
}
use go_spark.Email.Messages.{new_password_reset_message}
use go_spark.AuthStore.Accounts
use go_spark.AuthStore.Tokens
use go_spark.Auth.Service.{
  AuthService, validate_password, password_matches, hash_token, hash_password, generate_token,
}
use go_spark.Auth.Addresses.{normalize_email, is_valid_email}

module _ (env : Env) (s : AuthService) where
  unfoldable pub set_password_and_revoke_sessions : ℕ → Text → Action (Unit {0})
  set_password_and_revoke_sessions user password = do
    hash ← hash_password env s password
    Accounts.set_password_and_revoke_sessions env user hash

  unfoldable pub change_password : ℕ → Text → Text → Action (Unit {0})
  unfolding set_password_and_revoke_sessions
  change_password id current new =
      find_or (Accounts.get_user_by_id env id) (raise current_password_incorrect) λ user. do
        guard (password_matches s user.password_hash current) current_password_incorrect
        lift (validate_password s new)
        guard (not (password_matches s user.password_hash new)) password_unchanged
        set_password_and_revoke_sessions user.id new

  abbrev send_reset : User → Action (Unit {0})
  send_reset user = do
    token ← generate_token env
    message ← lift (new_password_reset_message s.platform s.email_options user.email token)
    at ← now env
    Tokens.request_password_reset env user.id (hash_token s token)
        (at + s.password_reset_token_duration) message at

  unfoldable pub request_password_reset : Text → Action (Unit {0})
  request_password_reset email =
      let address = normalize_email s.platform email in
      do
        guard (is_valid_email s.platform address) invalid_email
        find_or (Accounts.get_user_by_email env address) (pure tt) send_reset

  unfoldable pub validate_password_reset_token : Text → Action (Unit {0})
  validate_password_reset_token raw =
      let token = trim_space raw in
      do
        guard (not (is_empty token)) invalid_password_reset_token
        at ← now env
        find_or (Tokens.get_valid_password_reset_token_by_hash env (hash_token s token) at)
            (raise invalid_password_reset_token) (λ _. pure tt)

  unfoldable pub reset_password_with_token : Text → Text → Action (Unit {0})
  unfolding set_password_and_revoke_sessions
  reset_password_with_token raw new =
      let token = trim_space raw in
      do
        guard (not (is_empty token)) invalid_password_reset_token
        lift (validate_password s new)
        at ← now env
        find_or (Tokens.consume_password_reset_token env (hash_token s token) at)
            (raise invalid_password_reset_token)
            λ row. set_password_and_revoke_sessions row.user_id new
