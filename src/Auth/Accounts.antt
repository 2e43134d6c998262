-- ===== src/Auth/Accounts.antt =====
-- Registration, email verification and deletion of an account.
use go_spark.Base.{
  ℕ, ◌+◌, Text, Bool, true, false, Option, none, some, is_some, is_empty, trim_space, not,
  if◌then◌else◌,
}
use go_spark.Schema.{User, EmailVerificationToken}
use go_spark.Effect.{
  Err, Env, Action, ◌>>=◌, ◌>>◌, pure, raise, lift, guard, recover, find_or, now, is_no_rows,
  invalid_email, invalid_verification_token, current_password_incorrect, email_already_registered,
}
use go_spark.Email.Messages.{new_account_confirmation_message}
use go_spark.AuthStore.Accounts
use go_spark.AuthStore.Tokens
use go_spark.Auth.Service.{
  AuthService, validate_password, password_matches, hash_token, hash_password, generate_token,
}
use go_spark.Auth.Addresses.{normalize_email, is_valid_email}

-- `errors.Is(err, ErrEmailAlreadyRegistered)`
unfoldable pub is_already_registered : Err → Bool
is_already_registered email_already_registered = true
is_already_registered _ = false

module _ (env : Env) (s : AuthService) where
  abbrev pub created : User → Action (Option User)
  created u = pure (some u)

  -- The account of an address that nobody has.
  unfoldable pub register_new : Text → Text → Action (Option User)
  register_new email password = do
    hash ← hash_password env s password
    at ← now env
    token ← generate_token env
    message ← lift (new_account_confirmation_message s.platform s.email_options email token)
    recover is_already_registered (pure none) (
        Tokens.create_user_with_email_verification env email hash (hash_token s token)
          (at + s.email_verification_token_duration) message at
        >>= created)

  -- `none` is the neutral success, Go's `User{}` with no error.
  unfoldable pub register : Text → Text → Action (Option User)
  unfolding register_new
  register email password =
      let address = normalize_email s.platform email in
      do
        guard (is_valid_email s.platform address) invalid_email
        lift (validate_password s password)
        find_or (Accounts.get_user_by_email env address) (register_new address password)
            (λ _. pure none)

  unfoldable pub create_email_verification_token : ℕ → Action (Text × EmailVerificationToken)
  create_email_verification_token user = do
    token ← generate_token env
    at ← now env
    row ←
        Tokens.create_email_verification_token env user (hash_token s token)
          (at + s.email_verification_token_duration)
    pure (token, row)

  unfoldable pub verify_email : Text → Action User
  verify_email raw =
      let token = trim_space raw in
      do
        guard (not (is_empty token)) invalid_verification_token
        at ← now env
        recover is_no_rows (raise invalid_verification_token)
            (Tokens.verify_email_by_token_hash env (hash_token s token) at)

  abbrev send_verification : User → Action (Unit {0})
  send_verification user = do
    token ← generate_token env
    message ← lift (new_account_confirmation_message s.platform s.email_options user.email token)
    at ← now env
    Tokens.resend_email_verification env user.id (hash_token s token)
        (at + s.email_verification_token_duration) message at

  unfoldable pub resend_verification_email : ℕ → Action (Unit {0})
  resend_verification_email id =
      find_or (Accounts.get_user_by_id env id) (pure tt)
        λ user. if is_some user.email_verified_at then pure tt else send_verification user

  unfoldable pub resend_verification_email_by_address : Text → Action (Unit {0})
  unfolding resend_verification_email
  resend_verification_email_by_address email =
      let address = normalize_email s.platform email in
      do
        guard (is_valid_email s.platform address) invalid_email
        find_or (Accounts.get_user_by_email env address) (pure tt) λ user.
            if is_some user.email_verified_at then pure tt else resend_verification_email user.id

  unfoldable pub delete_account : ℕ → Text → Action (Unit {0})
  delete_account id password =
      find_or (Accounts.get_user_by_id env id) (raise current_password_incorrect) λ user.
        if password_matches s user.password_hash password
        then Accounts.delete_account env id
        else raise current_password_incorrect
