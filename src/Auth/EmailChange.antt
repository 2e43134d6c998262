-- ===== src/Auth/EmailChange.antt =====
-- The change of an email address.
use go_spark.Base.{ℕ, ◌+◌, Text, text_eq, trim_space, is_empty, not}
use go_spark.Schema.{User}
use go_spark.Effect.{
  Env, Action, ◌>>=◌, ◌>>◌, pure, raise, lift, guard, find_or, recover, now, is_no_rows,
  current_password_incorrect, invalid_email, email_unchanged, invalid_email_change_token,
}
use go_spark.Email.Messages.{new_email_change_message}
use go_spark.AuthStore.Accounts
use go_spark.AuthStore.Tokens
use go_spark.Auth.Service.{AuthService, password_matches, hash_token, generate_token}
use go_spark.Auth.Addresses.{normalize_email, is_valid_email}

module _ (env : Env) (s : AuthService) where
  abbrev send_change : User → Text → Action (Unit {0})
  send_change user address = do
    at ← now env
    token ← generate_token env
    message ← lift (new_email_change_message s.platform s.email_options address token)
    Tokens.request_email_change env user.id address (hash_token s token)
        (at + s.email_verification_token_duration) message at

  -- An address that another account has is passed over in silence.
  unfoldable pub request_email_change : ℕ → Text → Text → Action (Unit {0})
  request_email_change id password email =
      let address = normalize_email s.platform email in
      find_or (Accounts.get_user_by_id env id) (raise current_password_incorrect) λ user. do
        guard (password_matches s user.password_hash password) current_password_incorrect
        guard (is_valid_email s.platform address) invalid_email
        guard (not (text_eq address (normalize_email s.platform user.email))) email_unchanged
        find_or (Accounts.get_user_by_email env address) (send_change user address) (λ _. pure tt)

  unfoldable pub confirm_email_change : Text → Action User
  confirm_email_change raw =
      let token = trim_space raw in
      do
        guard (not (is_empty token)) invalid_email_change_token
        at ← now env
        recover is_no_rows (raise invalid_email_change_token) (
            Tokens.confirm_email_change env s.platform s.email_options s.email_change_notice_enabled
              (hash_token s token) at)
