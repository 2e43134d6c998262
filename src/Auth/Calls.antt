-- ===== src/Auth/Calls.antt =====
-- Any call of AuthService (internal/auth/auth.go, internal/auth/totp.go) as one event, and the
-- well-formed databases.
use go_spark.Base.{ℕ, Text}
use go_spark.Effect.{Env, World}
use go_spark.Validity.{Valid}
use go_spark.Auth.Service.{AuthService}
use go_spark.Auth.Accounts.{
  register, verify_email, resend_verification_email, resend_verification_email_by_address,
  delete_account, create_email_verification_token,
}
use go_spark.Auth.Sessions.{
  login, logout, user_by_session_token, list_managed_sessions, revoke_other_sessions,
  revoke_session_by_id,
}
use go_spark.Auth.Passwords.{
  change_password, request_password_reset, validate_password_reset_token, reset_password_with_token,
}
use go_spark.Auth.EmailChange.{request_email_change, confirm_email_change}
use go_spark.Auth.Totp.{
  begin_totp_setup, get_totp_setup_info, confirm_totp_setup, disable_totp, regenerate_backup_codes,
  verify_totp_login, get_totp_status, totp_setup_state,
}
use go_spark.Auth.Totp.Keeps.{
  begin_totp_setup-Keeps, get_totp_setup_info-Keeps, confirm_totp_setup-Keeps, disable_totp-Keeps,
  regenerate_backup_codes-Keeps, verify_totp_login-Keeps, get_totp_status-Keeps,
  totp_setup_state-Keeps,
}
use go_spark.Auth.Invariant.{
  change_password-Keeps, confirm_email_change-Keeps, create_email_verification_token-Keeps,
  delete_account-Keeps, list_managed_sessions-Keeps, login-Keeps, logout-Keeps, register-Keeps,
  request_email_change-Keeps, request_password_reset-Keeps, resend_verification_email-Keeps,
  resend_verification_email_by_address-Keeps, reset_password_with_token-Keeps,
  revoke_other_sessions-Keeps, revoke_session_by_id-Keeps, user_by_session_token-Keeps,
  validate_password_reset_token-Keeps, verify_email-Keeps,
}

-- A call of the service, as the handlers of internal/server and the tests make it.
pub data Call : Type 0 where
  registers logs_in : Text → Text → Call
  creates_verification resends : ℕ → Call
  verifies resends_by_address loads_session logs_out requests_reset checks_reset : Text → Call
  deletes_account : ℕ → Text → Call
  lists_sessions revokes_others : ℕ → Text → Call
  revokes : ℕ → Text → ℕ → Call
  changes_password requests_email_change : ℕ → Text → Text → Call
  resets_password : Text → Text → Call
  confirms_email_change : Text → Call
  begins_totp_setup reads_totp_setup reads_totp_status reads_totp_state : ℕ → Call
  confirms_totp disables_totp regenerates_codes logs_in_with_totp : ℕ → Text → Call

module _ (env : Env) (s : AuthService) where
  -- What a call leaves, whatever it returns.
  pub perform : Call → World → World
  perform (registers email password) w = (register env s email password w).1
  perform (logs_in email password) w = (login env s email password w).1
  perform (creates_verification user) w = (create_email_verification_token env s user w).1
  perform (resends id) w = (resend_verification_email env s id w).1
  perform (verifies token) w = (verify_email env s token w).1
  perform (resends_by_address email) w = (resend_verification_email_by_address env s email w).1
  perform (loads_session token) w = (user_by_session_token env s token w).1
  perform (logs_out token) w = (logout env s token w).1
  perform (requests_reset email) w = (request_password_reset env s email w).1
  perform (checks_reset token) w = (validate_password_reset_token env s token w).1
  perform (deletes_account id password) w = (delete_account env s id password w).1
  perform (lists_sessions user token) w = (list_managed_sessions env s user token w).1
  perform (revokes_others user token) w = (revoke_other_sessions env s user token w).1
  perform (revokes user token id) w = (revoke_session_by_id env s user token id w).1
  perform (changes_password id current new) w = (change_password env s id current new w).1
  perform (requests_email_change id password email) w =
      (request_email_change env s id password email w).1
  perform (resets_password token new) w = (reset_password_with_token env s token new w).1
  perform (confirms_email_change token) w = (confirm_email_change env s token w).1
  perform (begins_totp_setup id) w = (begin_totp_setup env s id w).1
  perform (reads_totp_setup id) w = (get_totp_setup_info env s id w).1
  perform (reads_totp_status id) w = (get_totp_status env s id w).1
  perform (reads_totp_state id) w = (totp_setup_state env s id w).1
  perform (confirms_totp id code) w = (confirm_totp_setup env s id code w).1
  perform (disables_totp id code) w = (disable_totp env s id code w).1
  perform (regenerates_codes id code) w = (regenerate_backup_codes env s id code w).1
  perform (logs_in_with_totp id code) w = (verify_totp_login env s id code w).1

  pub perform-Valid : (c : Call) (w : World) → Valid w.db → Valid (perform c w).db
  unfolding perform
  perform-Valid (registers email password) = (register-Keeps env s email password).at
  perform-Valid (logs_in email password) = (login-Keeps env s email password).at
  perform-Valid (creates_verification user) = (create_email_verification_token-Keeps env s user).at
  perform-Valid (resends id) = (resend_verification_email-Keeps env s id).at
  perform-Valid (verifies token) = (verify_email-Keeps env s token).at
  perform-Valid (resends_by_address email) =
      (resend_verification_email_by_address-Keeps env s email).at
  perform-Valid (loads_session token) = (user_by_session_token-Keeps env s token).at
  perform-Valid (logs_out token) = (logout-Keeps env s token).at
  perform-Valid (requests_reset email) = (request_password_reset-Keeps env s email).at
  perform-Valid (checks_reset token) = (validate_password_reset_token-Keeps env s token).at
  perform-Valid (deletes_account id password) = (delete_account-Keeps env s id password).at
  perform-Valid (lists_sessions user token) = (list_managed_sessions-Keeps env s user token).at
  perform-Valid (revokes_others user token) = (revoke_other_sessions-Keeps env s user token).at
  perform-Valid (revokes user token id) = (revoke_session_by_id-Keeps env s user token id).at
  perform-Valid (changes_password id current new) = (change_password-Keeps env s id current new).at
  perform-Valid (requests_email_change id password email) =
      (request_email_change-Keeps env s id password email).at
  perform-Valid (resets_password token new) = (reset_password_with_token-Keeps env s token new).at
  perform-Valid (confirms_email_change token) = (confirm_email_change-Keeps env s token).at
  perform-Valid (begins_totp_setup id) = (begin_totp_setup-Keeps env s id).at
  perform-Valid (reads_totp_setup id) = (get_totp_setup_info-Keeps env s id).at
  perform-Valid (reads_totp_status id) = (get_totp_status-Keeps env s id).at
  perform-Valid (reads_totp_state id) = (totp_setup_state-Keeps env s id).at
  perform-Valid (confirms_totp id code) = (confirm_totp_setup-Keeps env s id code).at
  perform-Valid (disables_totp id code) = (disable_totp-Keeps env s id code).at
  perform-Valid (regenerates_codes id code) = (regenerate_backup_codes-Keeps env s id code).at
  perform-Valid (logs_in_with_totp id code) = (verify_totp_login-Keeps env s id code).at
