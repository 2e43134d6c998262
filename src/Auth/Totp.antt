-- ===== src/Auth/Totp.antt =====
-- The second factor: the methods of internal/auth/totp.go.
pub mod Keeps
pub mod Replay
pub mod Factor
pub mod Login
pub mod Codes
pub mod Setup
pub mod Enabling
pub mod Pending
use go_spark.Base.{
  ℕ, Text, Bool, true, false, not, Option, none, some, is_some, List, if◌then◌else◌,
}
use go_spark.Schema.{User}
use go_spark.Effect.{
  Env, Action, ◌>>=◌, ◌>>◌, pure, raise, find_or, now, invalid_credentials, invalid_totp_code,
  totp_already_enabled, totp_not_enabled, totp_setup_not_started,
}
use go_spark.Totp.{verify_with_counter, build_uri}
use go_spark.AuthStore.Accounts
use go_spark.AuthStore.Totp
use go_spark.AuthStore.Totp.{TotpRecord}
use go_spark.Auth.Service.{AuthService}
use go_spark.Auth.BackupCodes.{hash_backup_code, generate_backup_codes, generate_totp_secret}
use go_spark.Auth.Sessions.{AuthSession, create_session_for_user}

abbrev pub totp_backup_code_count : ℕ
totp_backup_code_count = 8

module _ (env : Env) (s : AuthService) where
  abbrev claim : ℕ → Option ℕ → Action Bool
  claim user none = pure false
  claim user (some counter) = Totp.claim_totp_counter env user counter

  unfoldable pub verify_totp_code : TotpRecord → Text → Action Bool
  unfolding verify_with_counter Totp.claim_totp_counter
  verify_totp_code r code = do
    counter ← verify_with_counter s.platform env r.secret code
    claim r.user_id counter

  -- A backup code is spent by the call that presents it.
  unfoldable pub consume_backup_code : ℕ → Text → Action Bool
  unfolding hash_backup_code Totp.consume_totp_backup_code
  consume_backup_code user code = do
    at ← now env
    Totp.consume_totp_backup_code env user (hash_backup_code s.platform code s.backup_code_key) at

  abbrev by_user : ℕ → Action TotpRecord
  by_user user = Totp.get_totp_by_user_id env s.platform s.totp_secrets user

  abbrev enabled_by_user : ℕ → Action TotpRecord
  enabled_by_user user = Totp.get_enabled_totp_by_user_id env s.platform s.totp_secrets user

  abbrev with_uri : User → Text → Text × Text
  with_uri user secret = (secret, build_uri s.platform s.totp_issuer user.email secret)

  abbrev start_setup : ℕ → User → Action (Text × Text)
  start_setup id user = do
    secret ← generate_totp_secret env
    Totp.upsert_pending_totp env s.platform s.totp_secrets id secret
    pure (with_uri user secret)

  unfoldable pub begin_totp_setup : ℕ → Action (Text × Text)
  unfolding generate_totp_secret build_uri
  begin_totp_setup id = find_or (Accounts.get_user_by_id env id) (raise invalid_credentials) λ user.
      find_or (by_user id) (start_setup id user) λ existing.
        if is_some existing.enabled_at then raise totp_already_enabled else start_setup id user

  unfoldable pub get_totp_setup_info : ℕ → Action (Text × Text)
  unfolding build_uri
  get_totp_setup_info id =
      find_or (Accounts.get_user_by_id env id) (raise invalid_credentials) λ user.
        find_or (by_user id) (raise totp_setup_not_started) λ r.
          if is_some r.enabled_at
          then raise totp_setup_not_started
          else pure (with_uri user r.secret)

  abbrev enable : ℕ → Action (List Text)
  enable id = do
    (shown, hashes) ← generate_backup_codes s.platform env totp_backup_code_count s.backup_code_key
    at ← now env
    Totp.enable_totp_with_backup_codes env id at hashes
    pure shown

  abbrev confirm : ℕ → Text → TotpRecord → Action (List Text)
  confirm id code r = if is_some r.enabled_at then raise totp_already_enabled else do
    verified ← verify_totp_code r code
    if verified then enable id else raise invalid_totp_code

  -- The plain backup codes.
  unfoldable pub confirm_totp_setup : ℕ → Text → Action (List Text)
  unfolding generate_backup_codes verify_totp_code Totp.enable_totp_with_backup_codes
  confirm_totp_setup id code = find_or (by_user id) (raise totp_setup_not_started) (confirm id code)

  -- What DisableTOTP, RegenerateBackupCodes and VerifyTOTPLogin begin with: a code of the enabled
  -- second factor, or else a backup code, before the action.
  unfoldable pub with_second_factor : {A : Type 0} → ℕ → Text → Action A → Action A
  unfolding verify_totp_code consume_backup_code
  with_second_factor id code action = find_or (enabled_by_user id) (raise totp_not_enabled) λ r. do
    verified ← verify_totp_code r code
    if verified then action else (do
      consumed ← consume_backup_code id code
      if consumed then action else raise invalid_totp_code)

  unfoldable pub disable_totp : ℕ → Text → Action (Unit {0})
  unfolding with_second_factor Totp.delete_totp_and_backup_codes
  disable_totp id code = with_second_factor id code (Totp.delete_totp_and_backup_codes env id)

  abbrev regenerate : ℕ → Action (List Text)
  regenerate id = do
    (shown, hashes) ← generate_backup_codes s.platform env totp_backup_code_count s.backup_code_key
    Totp.replace_backup_codes env id hashes
    pure shown

  unfoldable pub regenerate_backup_codes : ℕ → Text → Action (List Text)
  unfolding with_second_factor generate_backup_codes Totp.replace_backup_codes
  regenerate_backup_codes id code = with_second_factor id code (regenerate id)

  unfoldable pub verify_totp_login : ℕ → Text → Action AuthSession
  unfolding with_second_factor create_session_for_user
  verify_totp_login id code = with_second_factor id code (create_session_for_user env s id)

  abbrev remaining : ℕ → Action (Bool × ℕ)
  remaining id = do count ← Totp.count_unused_totp_backup_codes env id; pure (true, count)

  -- Whether the second factor is enabled, and how many backup codes are left.
  unfoldable pub get_totp_status : ℕ → Action (Bool × ℕ)
  get_totp_status id = find_or (enabled_by_user id) (pure (false, 0)) (λ _. remaining id)

  -- Whether a setup is pending, and whether the second factor is enabled.
  unfoldable pub totp_setup_state : ℕ → Action (Bool × Bool)
  totp_setup_state id =
      find_or (by_user id) (pure (false, false))
        λ r. pure (not (is_some r.enabled_at), is_some r.enabled_at)
