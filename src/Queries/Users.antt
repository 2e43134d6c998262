-- ===== src/Queries/Users.antt =====
-- The statements on the table `users`: internal/db/generated/auth.sql.go, and those of
-- email_change.sql.go and email_verification.sql.go that update a user.
use go_spark.Base.{
  ℕ, suc, Text, text_eq, Bool, not, ◌&&◌, ◌||◌, Option, none, some, List, [], ◌∷◌, ◌++◌, ◌==◌,
  if◌then◌else◌, is_some, find_if, update_if, delete_if, max_key,
}
use go_spark.Schema.{User, Db}
use go_spark.Effect.{Result, ok, err, Query, no_rows, unique_violation}

-- The row of a `:one` statement, or `sql.ErrNoRows`.
abbrev pub one_row : {A : Type 0} → Option A → Db → Result (A × Db)
one_row none d = err no_rows
one_row (some a) d = ok (a, d)

abbrev pub by_id : ℕ → User → Bool
by_id id u = u.id == id

abbrev pub by_email : Text → User → Bool
by_email email u = text_eq u.email email

abbrev pub by_handle : Text → User → Bool
by_handle handle u = text_eq u.webauthn_user_handle handle

-- Whether a row refers to a user, as a foreign key demands.
unfoldable pub user_exists : ℕ → List User → Bool
user_exists id users = is_some (find_if (by_id id) users)

abbrev pub new_user : Text → Text → Text → ℕ → List User → User
new_user email hash handle now users = record {
  id = suc (max_key (λ u. u.id) users);
  email = email;
  password_hash = hash;
  email_verified_at = none;
  created_at = now;
  webauthn_user_handle = handle;
}

unfoldable pub create_user : Text → Text → Text → Query User
create_user email hash handle now d =
    let u = new_user email hash handle now d.users in
    if is_some (find_if (by_email email) d.users) || is_some (find_if (by_handle handle) d.users)
    then err unique_violation
    else ok (u, record d { users = d.users ++ (u ∷ []) })

unfoldable pub get_user_by_email : Text → Query User
get_user_by_email email now d = one_row (find_if (by_email email) d.users) d

unfoldable pub get_user_by_id : ℕ → Query User
get_user_by_id id now d = one_row (find_if (by_id id) d.users) d

unfoldable pub update_user_password_hash : Text → ℕ → Query (Unit {0})
update_user_password_hash hash id now d =
    ok (
      tt,
      record d { users = update_if (by_id id) (λ u. record u { password_hash = hash }) d.users },
    )

-- The updated row, as RETURNING gives it.
abbrev pub verified : ℕ → User → User
verified at u = record u { email_verified_at = some at }

unfoldable pub mark_user_email_verified : ℕ → ℕ → Query User
mark_user_email_verified at id now d = elim (find_if (by_id id) d.users) [
  | none ↦ err no_rows
  | some u ↦ ok (verified at u, record d { users = update_if (by_id id) (verified at) d.users })
]

abbrev pub with_email : Text → ℕ → User → User
with_email email at u = record u { email = email; email_verified_at = some at }

-- Whether another user has the address.
unfoldable pub email_taken : Text → ℕ → List User → Bool
email_taken email id users = is_some (find_if (λ u. by_email email u && not (by_id id u)) users)

unfoldable pub update_user_email : Text → ℕ → ℕ → Query User
update_user_email email at id now d = elim (find_if (by_id id) d.users) [
  | none ↦ err no_rows
  | some u ↦
      if email_taken email id d.users
      then err unique_violation
      else ok (
        with_email email at u,
        record d { users = update_if (by_id id) (with_email email at) d.users },
      )
]

-- Deletes the user and, by ON DELETE CASCADE, the rows of every table that refers to it.
unfoldable pub delete_user_by_id : ℕ → Query (Unit {0})
delete_user_by_id id now d = ok (
  tt,
  record {
    users = delete_if (by_id id) d.users;
    sessions = delete_if (λ r. r.user_id == id) d.sessions;
    email_verification_tokens = delete_if (λ r. r.user_id == id) d.email_verification_tokens;
    password_reset_tokens = delete_if (λ r. r.user_id == id) d.password_reset_tokens;
    email_change_tokens = delete_if (λ r. r.user_id == id) d.email_change_tokens;
    email_outbox = d.email_outbox;
    user_totp = delete_if (λ r. r.user_id == id) d.user_totp;
    totp_backup_codes = delete_if (λ r. r.user_id == id) d.totp_backup_codes;
    webauthn_credentials = delete_if (λ r. r.user_id == id) d.webauthn_credentials;
    projects = delete_if (λ r. r.user_id == id) d.projects;
  },
)
