-- ===== src/Auth/Invariant.antt =====
-- The methods of AuthService (internal/auth/auth.go) and the well-formed databases.
use go_spark.Base.{ℕ, Text}
use go_spark.Effect.{Env}
use go_spark.Effect.Invariants.{Keeps, keeps_rules}
use go_spark.Validity.{Valid}
use go_spark.Validity.Rules.{valid_rules}
use go_spark.AuthStore.Accounts
use go_spark.AuthStore.Tokens
use go_spark.Auth.Service.{AuthService, hash_password, generate_token}
use go_spark.Auth.Accounts.{
  register, verify_email, resend_verification_email, resend_verification_email_by_address,
  delete_account, create_email_verification_token,
}
use go_spark.Auth.Sessions.{
  login, logout, user_by_session_token, list_managed_sessions, revoke_other_sessions,
  revoke_session_by_id,
}
use go_spark.Auth.Passwords.{
  change_password, request_password_reset, validate_password_reset_token, reset_password_with_token,
}
use go_spark.Auth.EmailChange.{request_email_change, confirm_email_change}

module _ (env : Env) (s : AuthService) where
  pub register-Keeps : (email password : Text) → Keeps Valid (register env s email password)
  unfolding register hash_password generate_token Accounts.get_user_by_email
      Tokens.create_user_with_email_verification
  register-Keeps email password = search (keeps_rules, valid_rules) depth 20

  pub create_email_verification_token-Keeps :
      (user : ℕ) → Keeps Valid (create_email_verification_token env s user)
  unfolding create_email_verification_token generate_token Tokens.create_email_verification_token
  create_email_verification_token-Keeps user = search (keeps_rules, valid_rules) depth 20

  pub verify_email-Keeps : (token : Text) → Keeps Valid (verify_email env s token)
  unfolding verify_email Tokens.verify_email_by_token_hash
  verify_email-Keeps token = search (keeps_rules, valid_rules) depth 20

  pub resend_verification_email-Keeps : (id : ℕ) → Keeps Valid (resend_verification_email env s id)
  unfolding resend_verification_email generate_token Accounts.get_user_by_id
      Tokens.resend_email_verification
  resend_verification_email-Keeps id = search (keeps_rules, valid_rules) depth 20

  pub resend_verification_email_by_address-Keeps :
      (email : Text) → Keeps Valid (resend_verification_email_by_address env s email)
  unfolding resend_verification_email_by_address Accounts.get_user_by_email
  resend_verification_email_by_address-Keeps email =
      search (keeps_rules, valid_rules, resend_verification_email-Keeps) depth 20

  pub delete_account-Keeps :
      (id : ℕ) (password : Text) → Keeps Valid (delete_account env s id password)
  unfolding delete_account Accounts.get_user_by_id Accounts.delete_account
  delete_account-Keeps id password = search (keeps_rules, valid_rules) depth 20

  pub login-Keeps : (email password : Text) → Keeps Valid (login env s email password)
  unfolding login generate_token Accounts.get_user_by_email Accounts.create_session
  login-Keeps email password = search (keeps_rules, valid_rules) depth 20

  pub user_by_session_token-Keeps : (token : Text) → Keeps Valid (user_by_session_token env s token)
  unfolding user_by_session_token Accounts.get_user_by_session_token_hash
  user_by_session_token-Keeps token = search (keeps_rules, valid_rules) depth 20

  pub logout-Keeps : (token : Text) → Keeps Valid (logout env s token)
  unfolding logout Accounts.delete_session_by_token_hash
  logout-Keeps token = search (keeps_rules, valid_rules) depth 20

  pub list_managed_sessions-Keeps :
      (user : ℕ) (token : Text) → Keeps Valid (list_managed_sessions env s user token)
  unfolding list_managed_sessions Accounts.list_active_sessions_by_user_id
  list_managed_sessions-Keeps user token = search (keeps_rules, valid_rules) depth 20

  pub revoke_other_sessions-Keeps :
      (user : ℕ) (token : Text) → Keeps Valid (revoke_other_sessions env s user token)
  unfolding revoke_other_sessions Accounts.delete_other_sessions
  revoke_other_sessions-Keeps user token = search (keeps_rules, valid_rules) depth 20

  pub revoke_session_by_id-Keeps :
      (user : ℕ) (token : Text) (id : ℕ) → Keeps Valid (revoke_session_by_id env s user token id)
  unfolding revoke_session_by_id Accounts.delete_session_by_id
      Accounts.list_active_sessions_by_user_id
  revoke_session_by_id-Keeps user token id = search (keeps_rules, valid_rules) depth 20

  pub change_password-Keeps :
      (id : ℕ) (current new : Text) → Keeps Valid (change_password env s id current new)
  unfolding change_password hash_password Accounts.get_user_by_id
      Accounts.set_password_and_revoke_sessions
  change_password-Keeps id current new = search (keeps_rules, valid_rules) depth 20

  pub request_password_reset-Keeps :
      (email : Text) → Keeps Valid (request_password_reset env s email)
  unfolding request_password_reset generate_token Accounts.get_user_by_email
      Tokens.request_password_reset
  request_password_reset-Keeps email = search (keeps_rules, valid_rules) depth 20

  pub validate_password_reset_token-Keeps :
      (token : Text) → Keeps Valid (validate_password_reset_token env s token)
  unfolding validate_password_reset_token Tokens.get_valid_password_reset_token_by_hash
  validate_password_reset_token-Keeps token = search (keeps_rules, valid_rules) depth 20

  pub reset_password_with_token-Keeps :
      (token new : Text) → Keeps Valid (reset_password_with_token env s token new)
  unfolding reset_password_with_token hash_password Tokens.consume_password_reset_token
      Accounts.set_password_and_revoke_sessions
  reset_password_with_token-Keeps token new = search (keeps_rules, valid_rules) depth 20

  pub request_email_change-Keeps :
      (id : ℕ) (password email : Text) → Keeps Valid (request_email_change env s id password email)
  unfolding request_email_change generate_token Accounts.get_user_by_id Accounts.get_user_by_email
      Tokens.request_email_change
  request_email_change-Keeps id password email = search (keeps_rules, valid_rules) depth 20

  pub confirm_email_change-Keeps : (token : Text) → Keeps Valid (confirm_email_change env s token)
  unfolding confirm_email_change Tokens.confirm_email_change
  confirm_email_change-Keeps token = search (keeps_rules, valid_rules) depth 20
