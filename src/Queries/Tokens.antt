-- ===== src/Queries/Tokens.antt =====
-- The statements on the three tables of one-time tokens: internal/db/generated/
-- email_verification.sql.go, password_reset.sql.go and email_change.sql.go.
use go_spark.Base.{
  ℕ, suc, Text, text_eq, Bool, not, ◌&&◌, ◌||◌, none, some, false, [], ◌∷◌, ◌++◌, ltb, leb,
  if◌then◌else◌, is_some, find_if, update_if, delete_if, count_if, max_key,
}
use go_spark.Schema.{Token, EmailVerificationToken, PasswordResetToken, EmailChangeToken}
use go_spark.Effect.{ok, err, Query, no_rows, unique_violation, foreign_key_violation}
use go_spark.Queries.Users.{one_row, user_exists}

abbrev pub by_hash : Text → Token → Bool
by_hash hash t = text_eq t.token_hash hash

-- WHERE token_hash = ? AND consumed_at IS NULL AND expires_at > ?
abbrev pub is_valid : Text → ℕ → Token → Bool
is_valid hash at t = by_hash hash t && (not (is_some t.consumed_at) && ltb at t.expires_at)

abbrev pub consumed : ℕ → Token → Token
consumed at t = record t { consumed_at = some at }

-- WHERE expires_at <= ? OR (consumed_at IS NOT NULL AND consumed_at <= ?)
abbrev pub is_stale : ℕ → ℕ → Token → Bool
is_stale expired_before consumed_before t =
    leb t.expires_at expired_before
    || elim t.consumed_at [ none ↦ false | some c ↦ leb c consumed_before ]

abbrev pub new_token : ℕ → ℕ → Text → ℕ → ℕ → Token
new_token last user hash expires now = record {
  id = suc last;
  user_id = user;
  token_hash = hash;
  expires_at = expires;
  consumed_at = none;
  created_at = now;
}

unfoldable pub create_email_verification_token : ℕ → Text → ℕ → Query EmailVerificationToken
create_email_verification_token user hash expires now d =
    let rows = d.email_verification_tokens in
    let t = new_token (max_key (λ (r : Token). r.id) rows) user hash expires now in
    if is_some (find_if (by_hash hash) rows)
    then err unique_violation
    else if user_exists user d.users
    then ok (t, record d { email_verification_tokens = rows ++ (t ∷ []) })
    else err foreign_key_violation

unfoldable pub consume_email_verification_token : ℕ → Text → Query EmailVerificationToken
consume_email_verification_token at hash now d =
    elim (find_if (is_valid hash at) d.email_verification_tokens) [
      | none ↦ err no_rows
      | some t ↦ ok (
        consumed at t,
        record d {
          email_verification_tokens =
              update_if (is_valid hash at) (consumed at) d.email_verification_tokens;
        },
      )
    ]

unfoldable pub prune_email_verification_tokens : ℕ → ℕ → Query ℕ
prune_email_verification_tokens expired_before consumed_before now d =
    let stale = is_stale expired_before consumed_before in
    ok (
      count_if stale d.email_verification_tokens,
      record d { email_verification_tokens = delete_if stale d.email_verification_tokens },
    )

unfoldable pub create_password_reset_token : ℕ → Text → ℕ → Query PasswordResetToken
create_password_reset_token user hash expires now d =
    let rows = d.password_reset_tokens in
    let t = new_token (max_key (λ (r : Token). r.id) rows) user hash expires now in
    if is_some (find_if (by_hash hash) rows)
    then err unique_violation
    else if user_exists user d.users
    then ok (t, record d { password_reset_tokens = rows ++ (t ∷ []) })
    else err foreign_key_violation

unfoldable pub get_valid_password_reset_token_by_hash : Text → ℕ → Query PasswordResetToken
get_valid_password_reset_token_by_hash hash at now d =
    one_row (find_if (is_valid hash at) d.password_reset_tokens) d

unfoldable pub consume_password_reset_token : ℕ → Text → Query PasswordResetToken
consume_password_reset_token at hash now d =
    elim (find_if (is_valid hash at) d.password_reset_tokens) [
      | none ↦ err no_rows
      | some t ↦ ok (
        consumed at t,
        record d {
          password_reset_tokens =
              update_if (is_valid hash at) (consumed at) d.password_reset_tokens;
        },
      )
    ]

unfoldable pub prune_password_reset_tokens : ℕ → ℕ → Query ℕ
prune_password_reset_tokens expired_before consumed_before now d =
    let stale = is_stale expired_before consumed_before in
    ok (
      count_if stale d.password_reset_tokens,
      record d { password_reset_tokens = delete_if stale d.password_reset_tokens },
    )

unfoldable pub create_email_change_token : ℕ → Text → Text → ℕ → Query EmailChangeToken
create_email_change_token user new_email hash expires now d =
    let rows = d.email_change_tokens in
    let t : EmailChangeToken = record {
      token = new_token (max_key (λ (r : EmailChangeToken). r.id) rows) user hash expires now;
      new_email = new_email;
    } in
    if is_some (find_if (λ r. by_hash hash r.token) rows)
    then err unique_violation
    else if user_exists user d.users
    then ok (t, record d { email_change_tokens = rows ++ (t ∷ []) })
    else err foreign_key_violation

abbrev pub consumed_change : ℕ → EmailChangeToken → EmailChangeToken
consumed_change at t = record t { token = consumed at t.token }

unfoldable pub consume_email_change_token : ℕ → Text → Query EmailChangeToken
consume_email_change_token at hash now d =
    elim (find_if (λ t. is_valid hash at t.token) d.email_change_tokens) [
      | none ↦ err no_rows
      | some t ↦ ok (
        consumed_change at t,
        record d {
          email_change_tokens =
              update_if (λ t. is_valid hash at t.token) (consumed_change at) d.email_change_tokens;
        },
      )
    ]

unfoldable pub prune_email_change_tokens : ℕ → ℕ → Query ℕ
prune_email_change_tokens expired_before consumed_before now d =
    let stale = λ (t : EmailChangeToken). is_stale expired_before consumed_before t.token in
    ok (
      count_if stale d.email_change_tokens,
      record d { email_change_tokens = delete_if stale d.email_change_tokens },
    )
