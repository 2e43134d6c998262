-- ===== src/Queries/Sessions.antt =====
-- The statements on the table `sessions`: internal/db/generated/auth.sql.go.
use go_spark.Base.{
  ℕ, suc, Text, text_eq, Bool, not, ◌&&◌, ◌||◌, none, some, List, [], ◌∷◌, ◌++◌, ◌==◌, ltb, leb,
  if◌then◌else◌, is_some, find_if, keep_if, delete_if, count_if, max_key, order_by,
}
use go_spark.Schema.{User, Session}
use go_spark.Effect.{ok, err, Query, no_rows, unique_violation, foreign_key_violation}
use go_spark.Queries.Users.{one_row, by_id, user_exists}

abbrev pub by_hash : Text → Session → Bool
by_hash hash s = text_eq s.token_hash hash

abbrev pub owned_by : ℕ → Session → Bool
owned_by id s = s.user_id == id

abbrev pub is_active : ℕ → Session → Bool
is_active now s = ltb now s.expires_at

abbrev pub new_session : ℕ → Text → ℕ → ℕ → List Session → Session
new_session user hash expires now sessions = record {
  id = suc (max_key (λ s. s.id) sessions);
  user_id = user;
  token_hash = hash;
  expires_at = expires;
  created_at = now;
}

unfoldable pub create_session : ℕ → Text → ℕ → Query Session
create_session user hash expires now d =
    let s = new_session user hash expires now d.sessions in
    if is_some (find_if (by_hash hash) d.sessions)
    then err unique_violation
    else if user_exists user d.users
    then ok (s, record d { sessions = d.sessions ++ (s ∷ []) })
    else err foreign_key_violation

-- The join of `sessions` and `users`: at most one session has the token's hash.
unfoldable pub get_user_by_session_token_hash : Text → Query User
get_user_by_session_token_hash hash now d =
    elim (find_if (λ s. by_hash hash s && is_active now s) d.sessions) [
      | none ↦ err no_rows
      | some s ↦ one_row (find_if (by_id s.user_id) d.users) d
    ]

unfoldable pub delete_session_by_token_hash : Text → Query (Unit {0})
delete_session_by_token_hash hash now d =
    ok (tt, record d { sessions = delete_if (by_hash hash) d.sessions })

unfoldable pub delete_expired_sessions : ℕ → Query ℕ
delete_expired_sessions before now d =
    let gone = λ (s : Session). leb s.expires_at before in
    ok (count_if gone d.sessions, record d { sessions = delete_if gone d.sessions })

unfoldable pub delete_sessions_by_user_id : ℕ → Query (Unit {0})
delete_sessions_by_user_id user now d =
    ok (tt, record d { sessions = delete_if (owned_by user) d.sessions })

-- ORDER BY created_at DESC, id DESC
abbrev pub newest_first : Session → Session → Bool
newest_first s t = ltb t.created_at s.created_at || (t.created_at == s.created_at && leb t.id s.id)

unfoldable pub list_active_sessions_by_user_id : ℕ → Query (List Session)
list_active_sessions_by_user_id user now d =
    ok (order_by newest_first (keep_if (λ s. owned_by user s && is_active now s) d.sessions), d)

abbrev pub is_other : ℕ → Text → Session → Bool
is_other user hash s = owned_by user s && not (by_hash hash s)

unfoldable pub delete_other_sessions : ℕ → Text → Query ℕ
delete_other_sessions user hash now d = ok (
  count_if (is_other user hash) d.sessions,
  record d { sessions = delete_if (is_other user hash) d.sessions },
)

abbrev pub is_target : ℕ → ℕ → Text → Session → Bool
is_target id user hash s = (s.id == id) && is_other user hash s

unfoldable pub delete_session_by_id : ℕ → ℕ → Text → Query ℕ
delete_session_by_id id user hash now d = ok (
  count_if (is_target id user hash) d.sessions,
  record d { sessions = delete_if (is_target id user hash) d.sessions },
)
