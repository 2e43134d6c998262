-- ===== src/Auth/Service.antt =====
-- The auth service itself: AuthService of internal/auth/auth.go, its password rule and its tokens.
use go_spark.Base.{
  ℕ, ◌*◌, ◌==◌, Text, codes, Bool, true, false, Option, none, some, length, ltb, trim_space,
  if◌then◌else◌,
}
use go_spark.Effect.{
  Result, ok, err, Env, Action, ◌>>=◌, pure, draw, invalid_password, password_too_long,
}
use go_spark.Email.Messages.{MessageOptions}
use go_spark.Platform.{Platform, PasswordHasher, Aead}

pub record AuthService : Type 0 where
  pub platform : Platform
  pub open platform use *
  pub hasher : PasswordHasher
  pub email_change_notice_enabled : Bool
  pub session_duration : ℕ
  pub email_verification_token_duration : ℕ
  pub password_reset_token_duration : ℕ
  pub email_options : MessageOptions
  pub dummy_password_hash : Text
  pub password_min_len : ℕ
  pub totp_issuer : Text
  pub backup_code_key : Text
  -- `totpSecrets` of the store
  pub totp_secrets : Aead

-- What NewAuthService takes for an option that is left at its zero value.
abbrev pub seconds : ℕ → ℕ
seconds n = n * 1_000_000_000

pub record AuthOptions : Type 0 where
  pub session_duration : ℕ
  pub password_min_len : ℕ
  pub email_verification_token_duration : ℕ
  pub password_reset_token_duration : ℕ
  pub email_options : MessageOptions
  pub email_change_notice_enabled : Option Bool
  pub totp_issuer : Text
  pub totp_backup_code_key : Text

abbrev or_default : ℕ → ℕ → ℕ
or_default n d = if n == 0 then d else n

unfoldable pub email_change_notice_enabled : Option Bool → Bool
email_change_notice_enabled none = true
email_change_notice_enabled (some b) = b

-- The salt of the dummy hash is drawn at startup; the cipher is that of the TOTP key.
unfoldable pub new_auth_service :
    Platform → PasswordHasher → Aead → Text → AuthOptions → AuthService
unfolding email_change_notice_enabled trim_space
new_auth_service p h aead salt opts = record {
  platform = p;
  hasher = h;
  email_change_notice_enabled = email_change_notice_enabled opts.email_change_notice_enabled;
  session_duration = or_default opts.session_duration (seconds (7 * 24 * 3600));
  email_verification_token_duration =
      or_default opts.email_verification_token_duration (seconds (24 * 3600));
  password_reset_token_duration = or_default opts.password_reset_token_duration (seconds 3600);
  email_options = opts.email_options;
  dummy_password_hash = h.hash salt (codes "dummy-timing-equalization-password");
  password_min_len = or_default opts.password_min_len 12;
  totp_issuer = trim_space opts.totp_issuer;
  backup_code_key = opts.totp_backup_code_key;
  totp_secrets = aead;
}

abbrev pub password_max_length : ℕ
password_max_length = 4096

-- Lengths count code points.
unfoldable pub validate_password : AuthService → Text → Result (Unit {0})
validate_password s password =
    if ltb (length password) s.password_min_len
    then err invalid_password
    else if ltb password_max_length (length password)
    then err password_too_long
    else ok tt

-- Whether the stored hash is of the password; a hash that cannot be decoded is not.
abbrev pub matches : Option Bool → Bool
matches none = false
matches (some b) = b

unfoldable pub password_matches : AuthService → Text → Text → Bool
password_matches s hash password = matches (s.hasher.verify hash password)

unfoldable pub hash_token : AuthService → Text → Text
hash_token s token = s.sha256_hex token

module _ (env : Env) where
  -- argon2idHasher.Hash: a new salt, and the hash under it.
  unfoldable pub hash_password : AuthService → Text → Action Text
  hash_password s password = do salt ← draw env; pure (s.hasher.hash salt password)

  unfoldable pub generate_token : Action Text
  generate_token = draw env
