-- ===== src/AuthStore/Accounts.antt =====
-- Users and sessions.
use go_spark.Base.{ℕ, Text, Bool, List, true, false}
use go_spark.Schema.{User, Session}
use go_spark.Effect.{
  Err, Env, Action, ◌>>=◌, ◌>>◌, raise, recover, exec, draw, with_tx, unique_violation,
  email_already_registered,
}
use go_spark.Queries.Users
use go_spark.Queries.Sessions

-- isSQLiteUniqueConstraint
unfoldable pub is_unique_violation : Err → Bool
is_unique_violation unique_violation = true
is_unique_violation _ = false

module _ (env : Env) where
  -- The insertion of a user inside a transaction or alone: a UNIQUE violation means that the
  -- address is taken.
  abbrev pub insert_user : Text → Text → Text → Action User
  insert_user email hash handle =
      recover is_unique_violation (raise email_already_registered)
        (exec env (Users.create_user email hash handle))

  unfoldable pub create_user : Text → Text → Action User
  create_user email hash = do handle ← draw env; insert_user email hash handle

  unfoldable pub create_verified_user : Text → Text → ℕ → Action User
  create_verified_user email hash verified_at = do
    handle ← draw env
    with_tx env do
      user ← insert_user email hash handle
      exec env (Users.mark_user_email_verified verified_at user.id)

  unfoldable pub get_user_by_email : Text → Action User
  get_user_by_email email = exec env (Users.get_user_by_email email)

  unfoldable pub get_user_by_id : ℕ → Action User
  get_user_by_id id = exec env (Users.get_user_by_id id)

  unfoldable pub create_session : ℕ → Text → ℕ → Action Session
  create_session user hash expires = exec env (Sessions.create_session user hash expires)

  unfoldable pub get_user_by_session_token_hash : Text → Action User
  get_user_by_session_token_hash hash = exec env (Sessions.get_user_by_session_token_hash hash)

  unfoldable pub delete_session_by_token_hash : Text → Action (Unit {0})
  delete_session_by_token_hash hash = exec env (Sessions.delete_session_by_token_hash hash)

  unfoldable pub list_active_sessions_by_user_id : ℕ → Action (List Session)
  list_active_sessions_by_user_id user = exec env (Sessions.list_active_sessions_by_user_id user)

  unfoldable pub delete_other_sessions : ℕ → Text → Action ℕ
  delete_other_sessions user hash = exec env (Sessions.delete_other_sessions user hash)

  unfoldable pub delete_session_by_id : ℕ → ℕ → Text → Action ℕ
  delete_session_by_id id user hash = exec env (Sessions.delete_session_by_id id user hash)

  unfoldable pub set_password_and_revoke_sessions : ℕ → Text → Action (Unit {0})
  set_password_and_revoke_sessions user hash = with_tx env do
    exec env (Users.update_user_password_hash hash user)
    exec env (Sessions.delete_sessions_by_user_id user)

  unfoldable pub delete_account : ℕ → Action (Unit {0})
  delete_account user = exec env (Users.delete_user_by_id user)
