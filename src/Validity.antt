-- ===== src/Validity.antt =====
-- The well-formed databases: what the UNIQUE columns, the row numbers and the foreign keys of
-- migrations/00001_initial_schema.sql and 00002_projects_schema.sql promise.
pub mod Tables
pub mod Users
pub mod Sessions
pub mod Tokens
pub mod Outbox
pub mod Totp
pub mod Projects
pub mod Rules
use go_spark.Base.{ℕ, Text, List, ◌≡◌, true, All, All-map, Distinct}
use go_spark.Schema.{
  User, Session, Token, EmailChangeToken, EmailOutbox, UserTotp, TotpBackupCode, WebauthnCredential,
  Project, Db,
}
use go_spark.Queries.Users.{user_exists}

-- Every row of a table refers to a user.
abbrev pub Owned : {A : Type 0} → (A → ℕ) → List User → List A → Type 0
Owned owner users rows = All (λ r. user_exists (owner r) users ≡ true) rows

-- The primary key and the two UNIQUE columns of `users`.
pub record UsersValid (users : List User) : Type 0 where
  pub ids : Distinct (λ (u : User). u.id) users
  pub emails : Distinct (λ (u : User). u.email) users
  pub handles : Distinct (λ (u : User). u.webauthn_user_handle) users

-- The primary key and the UNIQUE column of a table of rows with a hash.
pub record KeysValid {A : Type 0} (id : A → ℕ) (hash : A → Text) (rows : List A) : Type 0 where
  pub ids : Distinct id rows
  pub hashes : Distinct hash rows

-- The foreign keys, for the tables of `d` and a list of users.
pub record Owners (users : List User) (d : Db) : Type 0 where
  pub sessions : Owned (λ (r : Session). r.user_id) users d.sessions
  pub verifications : Owned (λ (r : Token). r.user_id) users d.email_verification_tokens
  pub resets : Owned (λ (r : Token). r.user_id) users d.password_reset_tokens
  pub changes : Owned (λ (r : EmailChangeToken). r.user_id) users d.email_change_tokens
  pub totps : Owned (λ (r : UserTotp). r.user_id) users d.user_totp
  pub codes : Owned (λ (r : TotpBackupCode). r.user_id) users d.totp_backup_codes
  pub credentials : Owned (λ (r : WebauthnCredential). r.user_id) users d.webauthn_credentials
  pub projects : Owned (λ (r : Project). r.user_id) users d.projects

pub record Valid (d : Db) : Type 0 where
  pub users : UsersValid d.users
  pub sessions : KeysValid (λ (r : Session). r.id) (λ r. r.token_hash) d.sessions
  pub verifications :
      KeysValid (λ (r : Token). r.id) (λ r. r.token_hash) d.email_verification_tokens
  pub resets : KeysValid (λ (r : Token). r.id) (λ r. r.token_hash) d.password_reset_tokens
  pub changes : KeysValid (λ (r : EmailChangeToken). r.id) (λ r. r.token_hash) d.email_change_tokens
  pub totps : Distinct (λ (r : UserTotp). r.user_id) d.user_totp
  pub codes : KeysValid (λ (r : TotpBackupCode). r.id) (λ r. r.code_hash) d.totp_backup_codes
  pub outbox : Distinct (λ (r : EmailOutbox). r.id) d.email_outbox
  pub owners : Owners d.users d

module _ (users users' : List User) where
  pub Owned-mono :
      {A : Type 0} (owner : A → ℕ)
      → ((i : ℕ) → user_exists i users ≡ true → user_exists i users' ≡ true)
      → (rows : List A) → Owned owner users rows
      → Owned owner users' rows
  Owned-mono owner f rows h =
      All-map (λ r. user_exists (owner r) users ≡ true) (λ r. user_exists (owner r) users' ≡ true)
        (λ r. f (owner r)) rows h

  -- Users that are still there are still there for every table.
  pub Owners-mono :
      (d : Db)
      → ((i : ℕ) → user_exists i users ≡ true → user_exists i users' ≡ true)
      → Owners users d
      → Owners users' d
  Owners-mono d f o = record {
    sessions = Owned-mono (λ r. r.user_id) f d.sessions o.sessions;
    verifications = Owned-mono (λ r. r.user_id) f d.email_verification_tokens o.verifications;
    resets = Owned-mono (λ r. r.user_id) f d.password_reset_tokens o.resets;
    changes = Owned-mono (λ r. r.user_id) f d.email_change_tokens o.changes;
    totps = Owned-mono (λ r. r.user_id) f d.user_totp o.totps;
    codes = Owned-mono (λ r. r.user_id) f d.totp_backup_codes o.codes;
    credentials = Owned-mono (λ r. r.user_id) f d.webauthn_credentials o.credentials;
    projects = Owned-mono (λ r. r.user_id) f d.projects o.projects;
  }
