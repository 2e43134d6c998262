-- ===== src/Queries/Totp.antt =====
-- The statements on the tables `user_totp` and `totp_backup_codes`:
-- internal/db/generated/totp.sql.go.
use go_spark.Base.{
  ℕ, suc, Text, text_eq, Bool, true, not, ◌&&◌, Option, none, some, [], ◌∷◌, ◌++◌, ◌==◌, ltb,
  if◌then◌else◌, is_some, find_if, update_if, delete_if, count_if, max_key,
}
use go_spark.Schema.{UserTotp, TotpBackupCode}
use go_spark.Effect.{ok, err, Query, unique_violation, foreign_key_violation}
use go_spark.Queries.Users.{one_row, user_exists}

abbrev pub of_user : ℕ → UserTotp → Bool
of_user id t = t.user_id == id

abbrev pub is_enabled : ℕ → UserTotp → Bool
is_enabled id t = of_user id t && is_some t.enabled_at

unfoldable pub get_totp_by_user_id : ℕ → Query UserTotp
get_totp_by_user_id id now d = one_row (find_if (of_user id) d.user_totp) d

unfoldable pub get_enabled_totp_by_user_id : ℕ → Query UserTotp
get_enabled_totp_by_user_id id now d = one_row (find_if (is_enabled id) d.user_totp) d

-- last_used_counter IS NULL OR last_used_counter < ?
abbrev pub is_newer : ℕ → Option ℕ → Bool
is_newer counter none = true
is_newer counter (some last) = ltb last counter

abbrev pub accepts : ℕ → ℕ → UserTotp → Bool
accepts counter id t = of_user id t && is_newer counter t.last_used_counter

unfoldable pub claim_totp_counter : ℕ → ℕ → Query ℕ
claim_totp_counter counter id now d = ok (
  count_if (accepts counter id) d.user_totp,
  record d {
    user_totp =
        update_if (accepts counter id) (λ t. record t { last_used_counter = some counter })
          d.user_totp;
  },
)

-- INSERT … ON CONFLICT(user_id) DO UPDATE
unfoldable pub upsert_pending_totp : ℕ → Text → Query (Unit {0})
upsert_pending_totp id secret now d =
    let row : UserTotp = record {
      id = suc (max_key (λ (t : UserTotp). t.id) d.user_totp);
      user_id = id;
      secret = secret;
      enabled_at = none;
      created_at = now;
      last_used_counter = none;
    } in
    if is_some (find_if (of_user id) d.user_totp)
    then ok (
      tt,
      record d {
        user_totp =
            update_if (of_user id) (λ t. record t { secret = secret; enabled_at = none })
              d.user_totp;
      },
    )
    else if user_exists id d.users
    then ok (tt, record d { user_totp = d.user_totp ++ (row ∷ []) })
    else err foreign_key_violation

unfoldable pub enable_totp : ℕ → ℕ → Query (Unit {0})
enable_totp at id now d = ok (
  tt,
  record d {
    user_totp =
        update_if (λ t. of_user id t && not (is_some t.enabled_at))
          (λ t. record t { enabled_at = some at }) d.user_totp;
  },
)

unfoldable pub delete_totp_by_user_id : ℕ → Query (Unit {0})
delete_totp_by_user_id id now d =
    ok (tt, record d { user_totp = delete_if (of_user id) d.user_totp })

abbrev pub code_of_user : ℕ → TotpBackupCode → Bool
code_of_user id c = c.user_id == id

unfoldable pub create_totp_backup_code : ℕ → Text → Query (Unit {0})
create_totp_backup_code id hash now d =
    let row : TotpBackupCode = record {
      id = suc (max_key (λ (c : TotpBackupCode). c.id) d.totp_backup_codes);
      user_id = id;
      code_hash = hash;
      used_at = none;
      created_at = now;
    } in
    if is_some (find_if (λ c. text_eq c.code_hash hash) d.totp_backup_codes)
    then err unique_violation
    else if user_exists id d.users
    then ok (tt, record d { totp_backup_codes = d.totp_backup_codes ++ (row ∷ []) })
    else err foreign_key_violation

unfoldable pub delete_totp_backup_codes_by_user_id : ℕ → Query (Unit {0})
delete_totp_backup_codes_by_user_id id now d =
    ok (tt, record d { totp_backup_codes = delete_if (code_of_user id) d.totp_backup_codes })

abbrev pub is_unused : ℕ → TotpBackupCode → Bool
is_unused id c = code_of_user id c && not (is_some c.used_at)

unfoldable pub consume_totp_backup_code : ℕ → ℕ → Text → Query ℕ
consume_totp_backup_code at id hash now d =
    let hit = λ (c : TotpBackupCode). is_unused id c && text_eq c.code_hash hash in
    ok (
      count_if hit d.totp_backup_codes,
      record d {
        totp_backup_codes = update_if hit (λ c. record c { used_at = some at }) d.totp_backup_codes;
      },
    )

unfoldable pub count_unused_totp_backup_codes : ℕ → Query ℕ
count_unused_totp_backup_codes id now d = ok (count_if (is_unused id) d.totp_backup_codes, d)
