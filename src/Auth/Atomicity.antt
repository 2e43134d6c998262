-- ===== src/Auth/Atomicity.antt =====
-- The methods of AuthService (internal/auth/auth.go) that fail.
use go_spark.Base.{ℕ, Text}
use go_spark.Effect.{Env}
use go_spark.Effect.Atomicity.{Atomic, atomic_rules}
use go_spark.Queries.Reads.{reads}
use go_spark.AuthStore.Accounts
use go_spark.AuthStore.Tokens
use go_spark.Auth.Service.{AuthService, hash_password, generate_token}
use go_spark.Auth.Accounts.{
  register, verify_email, resend_verification_email, resend_verification_email_by_address,
  delete_account, create_email_verification_token,
}
use go_spark.Auth.Sessions.{login, logout, revoke_other_sessions}
use go_spark.Auth.Passwords.{change_password, request_password_reset}
use go_spark.Auth.EmailChange.{request_email_change, confirm_email_change}

module _ (env : Env) (s : AuthService) where
  pub register-Atomic : (email password : Text) → Atomic (register env s email password)
  unfolding register hash_password generate_token Accounts.get_user_by_email
      Tokens.create_user_with_email_verification
  register-Atomic email password = search (atomic_rules, reads) depth 12

  create_email_verification_token-Atomic :
      (user : ℕ) → Atomic (create_email_verification_token env s user)
  unfolding create_email_verification_token generate_token Tokens.create_email_verification_token
  create_email_verification_token-Atomic user = search (atomic_rules, reads) depth 12

  verify_email-Atomic : (token : Text) → Atomic (verify_email env s token)
  unfolding verify_email Tokens.verify_email_by_token_hash
  verify_email-Atomic token = search (atomic_rules, reads) depth 12

  resend_verification_email-Atomic : (id : ℕ) → Atomic (resend_verification_email env s id)
  unfolding resend_verification_email generate_token Accounts.get_user_by_id
      Tokens.resend_email_verification
  resend_verification_email-Atomic id = search (atomic_rules, reads) depth 12

  resend_verification_email_by_address-Atomic :
      (email : Text) → Atomic (resend_verification_email_by_address env s email)
  unfolding resend_verification_email_by_address Accounts.get_user_by_email
  resend_verification_email_by_address-Atomic email =
      search (atomic_rules, reads, resend_verification_email-Atomic) depth 12

  delete_account-Atomic : (id : ℕ) (password : Text) → Atomic (delete_account env s id password)
  unfolding delete_account Accounts.get_user_by_id Accounts.delete_account
  delete_account-Atomic id password = search (atomic_rules, reads) depth 12

  pub login-Atomic : (email password : Text) → Atomic (login env s email password)
  unfolding login generate_token Accounts.get_user_by_email Accounts.create_session
  login-Atomic email password = search (atomic_rules, reads) depth 14

  logout-Atomic : (token : Text) → Atomic (logout env s token)
  unfolding logout Accounts.delete_session_by_token_hash
  logout-Atomic token = search (atomic_rules, reads) depth 12

  revoke_other_sessions-Atomic :
      (user : ℕ) (token : Text) → Atomic (revoke_other_sessions env s user token)
  unfolding revoke_other_sessions Accounts.delete_other_sessions
  revoke_other_sessions-Atomic user token = search (atomic_rules, reads) depth 12

  change_password-Atomic :
      (id : ℕ) (current new : Text) → Atomic (change_password env s id current new)
  unfolding change_password hash_password Accounts.get_user_by_id
      Accounts.set_password_and_revoke_sessions
  change_password-Atomic id current new = search (atomic_rules, reads) depth 14

  request_password_reset-Atomic : (email : Text) → Atomic (request_password_reset env s email)
  unfolding request_password_reset generate_token Accounts.get_user_by_email
      Tokens.request_password_reset
  request_password_reset-Atomic email = search (atomic_rules, reads) depth 14

  request_email_change-Atomic :
      (id : ℕ) (password email : Text) → Atomic (request_email_change env s id password email)
  unfolding request_email_change generate_token Accounts.get_user_by_id Accounts.get_user_by_email
      Tokens.request_email_change
  request_email_change-Atomic id password email = search (atomic_rules, reads) depth 14

  confirm_email_change-Atomic : (token : Text) → Atomic (confirm_email_change env s token)
  unfolding confirm_email_change Tokens.confirm_email_change
  confirm_email_change-Atomic token = search (atomic_rules, reads) depth 14

  -- Each of these methods leaves the database as it found it whenever it returns an error.
  abbrev pub MethodsAtomic : Type 0
  MethodsAtomic =
      ((email password : Text) → Atomic (register env s email password))
      × ((user : ℕ) → Atomic (create_email_verification_token env s user))
      × ((token : Text) → Atomic (verify_email env s token))
      × ((id : ℕ) → Atomic (resend_verification_email env s id))
      × ((email : Text) → Atomic (resend_verification_email_by_address env s email))
      × ((id : ℕ) (password : Text) → Atomic (delete_account env s id password))
      × ((email password : Text) → Atomic (login env s email password))
      × ((token : Text) → Atomic (logout env s token))
      × ((user : ℕ) (token : Text) → Atomic (revoke_other_sessions env s user token))
      × ((id : ℕ) (current new : Text) → Atomic (change_password env s id current new))
      × ((email : Text) → Atomic (request_password_reset env s email))
      × ((id : ℕ) (password email : Text) → Atomic (request_email_change env s id password email))
      × ((token : Text) → Atomic (confirm_email_change env s token))

  -- Whatever effect fails, each of these thirteen methods of the service that returns an error
  -- leaves the database as it found it: the registration, the creation and the resending of
  -- verification tokens, the verification, the deletion of an account, login and logout, the
  -- revocation of other sessions, the change of a password, and the requests for a reset and for
  -- an email change and its confirmation.
  pub methods-Atomic : MethodsAtomic
  methods-Atomic = (
    register-Atomic, create_email_verification_token-Atomic, verify_email-Atomic,
    resend_verification_email-Atomic, resend_verification_email_by_address-Atomic,
    delete_account-Atomic, login-Atomic, logout-Atomic, revoke_other_sessions-Atomic,
    change_password-Atomic, request_password_reset-Atomic, request_email_change-Atomic,
    confirm_email_change-Atomic,
  )
