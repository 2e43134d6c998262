-- ===== src/Schema.antt =====
-- The rows of the database and the database itself: internal/db/generated/models.go over the
-- tables of migrations/. A time is a number of nanoseconds, an int64 identifier or counter is a
-- natural number, NULL is `none`, a BLOB or TEXT column is a text.
use go_spark.Base.{ℕ, Text, List, [], Option}

pub record User : Type 0 where
  pub id : ℕ
  pub email : Text
  pub password_hash : Text
  pub email_verified_at : Option ℕ
  pub created_at : ℕ
  pub webauthn_user_handle : Text

pub record Session : Type 0 where
  pub id : ℕ
  pub user_id : ℕ
  pub token_hash : Text
  pub expires_at : ℕ
  pub created_at : ℕ

-- The columns that the three tables of one-time tokens share; the tables of email verification
-- and of password reset tokens have no others.
pub record Token : Type 0 where
  pub id : ℕ
  pub user_id : ℕ
  pub token_hash : Text
  pub expires_at : ℕ
  pub consumed_at : Option ℕ
  pub created_at : ℕ

abbrev pub EmailVerificationToken : Type 0
EmailVerificationToken = Token

abbrev pub PasswordResetToken : Type 0
PasswordResetToken = Token

pub record EmailChangeToken : Type 0 where
  pub token : Token
  pub open token use *
  pub new_email : Text

-- The values of the column `status` of the outbox.
pub data Status : Type 0 where
  pending sending sent failed : Status

pub record EmailOutbox : Type 0 where
  pub id : ℕ
  pub sender : Text
  pub recipient : Text
  pub subject : Text
  pub text_body : Text
  pub html_body : Text
  pub status : Status
  pub attempts : ℕ
  pub last_error : Text
  pub available_at : ℕ
  pub claimed_at : Option ℕ
  pub claim_expires_at : Option ℕ
  pub claim_token : Text
  pub sent_at : Option ℕ
  pub created_at : ℕ

pub record UserTotp : Type 0 where
  pub id : ℕ
  pub user_id : ℕ
  pub secret : Text
  pub enabled_at : Option ℕ
  pub created_at : ℕ
  pub last_used_counter : Option ℕ

pub record TotpBackupCode : Type 0 where
  pub id : ℕ
  pub user_id : ℕ
  pub code_hash : Text
  pub used_at : Option ℕ
  pub created_at : ℕ

pub record WebauthnCredential : Type 0 where
  pub id : ℕ
  pub user_id : ℕ
  pub credential_id : Text
  pub public_key : Text
  pub attestation_type : Text
  pub aaguid : Text
  pub sign_count : ℕ
  pub transports : Text
  pub backup_eligible : ℕ
  pub backup_state : ℕ
  pub name : Text
  pub created_at : ℕ
  pub last_used_at : Option ℕ

pub record Project : Type 0 where
  pub id : ℕ
  pub user_id : ℕ
  pub name : Text
  pub created_at : ℕ

pub record Db : Type 0 where
  pub users : List User
  pub sessions : List Session
  pub email_verification_tokens : List EmailVerificationToken
  pub password_reset_tokens : List PasswordResetToken
  pub email_change_tokens : List EmailChangeToken
  pub email_outbox : List EmailOutbox
  pub user_totp : List UserTotp
  pub totp_backup_codes : List TotpBackupCode
  pub webauthn_credentials : List WebauthnCredential
  pub projects : List Project

abbrev pub empty_db : Db
empty_db = record {
  users = [];
  sessions = [];
  email_verification_tokens = [];
  password_reset_tokens = [];
  email_change_tokens = [];
  email_outbox = [];
  user_totp = [];
  totp_backup_codes = [];
  webauthn_credentials = [];
  projects = [];
}
