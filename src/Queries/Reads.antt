-- ===== src/Queries/Reads.antt =====
-- The statements that change nothing.
use go_spark.Base.{ℕ, ◌≡◌, Text, Option, none, some, arith}
use go_spark.Schema.{Db}
use go_spark.Effect.{ok}
use go_spark.Effect.Atomicity.{Reads}
use go_spark.Queries.Users.{one_row, get_user_by_email, get_user_by_id}
use go_spark.Queries.Sessions.{get_user_by_session_token_hash, list_active_sessions_by_user_id}
use go_spark.Queries.Tokens.{get_valid_password_reset_token_by_hash}
use go_spark.Queries.Projects.{list_projects_by_user_id}
use go_spark.Queries.Totp.{
  get_enabled_totp_by_user_id, get_totp_by_user_id, count_unused_totp_backup_codes,
}

one_row_reads :
    {A : Type 0} (o : Option A) (d : Db) (a : A) (d' : Db) → one_row o d ≡ ok (a, d') → d' ≡ d
one_row_reads none d a d' h = cc
one_row_reads (some b) d a d' h = cc

pub Reads-get_user_by_email : (email : Text) → Reads (get_user_by_email email)
unfolding get_user_by_email
Reads-get_user_by_email email = record { at = λ t d. one_row_reads _ d }

pub Reads-get_user_by_id : (id : ℕ) → Reads (get_user_by_id id)
unfolding get_user_by_id
Reads-get_user_by_id id = record { at = λ t d. one_row_reads _ d }

pub Reads-get_user_by_session_token_hash :
    (hash : Text) → Reads (get_user_by_session_token_hash hash)
unfolding get_user_by_session_token_hash
Reads-get_user_by_session_token_hash hash = record { at = λ t d a d' h. ground arith }

pub Reads-list_active_sessions : (user : ℕ) → Reads (list_active_sessions_by_user_id user)
unfolding list_active_sessions_by_user_id
Reads-list_active_sessions user = record { at = λ t d a d' h. cc }

pub Reads-get_valid_password_reset_token :
    (hash : Text) (at : ℕ) → Reads (get_valid_password_reset_token_by_hash hash at)
unfolding get_valid_password_reset_token_by_hash
Reads-get_valid_password_reset_token hash at = record { at = λ t d. one_row_reads _ d }

pub Reads-get_enabled_totp : (id : ℕ) → Reads (get_enabled_totp_by_user_id id)
unfolding get_enabled_totp_by_user_id
Reads-get_enabled_totp id = record { at = λ t d. one_row_reads _ d }

pub Reads-get_totp : (id : ℕ) → Reads (get_totp_by_user_id id)
unfolding get_totp_by_user_id
Reads-get_totp id = record { at = λ t d. one_row_reads _ d }

pub Reads-count_unused : (id : ℕ) → Reads (count_unused_totp_backup_codes id)
unfolding count_unused_totp_backup_codes
Reads-count_unused id = record { at = λ t d a d' h. cc }

pub Reads-list_projects : (user : ℕ) → Reads (list_projects_by_user_id user)
unfolding list_projects_by_user_id
Reads-list_projects user = record { at = λ t d a d' h. cc }

pub ruleset reads = (
  Reads-get_user_by_email, Reads-get_user_by_id, Reads-get_user_by_session_token_hash,
  Reads-list_active_sessions, Reads-get_valid_password_reset_token, Reads-get_enabled_totp,
  Reads-get_totp, Reads-count_unused, Reads-list_projects,
)
