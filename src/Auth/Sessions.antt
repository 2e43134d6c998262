-- ===== src/Auth/Sessions.antt =====
-- Login, and the sessions of a user.
use go_spark.Base.{
  ℕ, ◌+◌, Text, text_eq, Bool, true, false, List, [], ◌∷◌, map, ltb, ◌==◌, trim_space, is_empty,
  if◌then◌else◌,
}
use go_spark.Schema.{User, Session}
use go_spark.Effect.{
  Env, Action, ◌>>=◌, ◌>>◌, pure, raise, find_or, now, exec, invalid_credentials, invalid_session,
  invalid_session_target, cannot_revoke_current_session,
}
use go_spark.Queries.Totp
use go_spark.AuthStore.Accounts
use go_spark.Auth.Service.{AuthService, password_matches, hash_token, generate_token}
use go_spark.Auth.Addresses.{normalize_email}

pub record AuthSession : Type 0 where
  pub token : Text
  pub expires_at : ℕ

pub record ManagedSession : Type 0 where
  pub id : ℕ
  pub created_at : ℕ
  pub expires_at : ℕ
  pub current : Bool

-- What a login with the right password gives: a session, or the user together with
-- ErrTOTPRequired.
pub data LoginOutcome : Type 0 where
  logged_in : User → AuthSession → LoginOutcome
  totp_required_for : User → LoginOutcome

-- The loop of RevokeSessionByID over the active sessions.
unfoldable pub names_current : ℕ → Text → List Session → Bool
names_current id hash [] = false
names_current id hash (s ∷ ss) =
    let rest = names_current id hash ss in
    if s.id == id then (if text_eq s.token_hash hash then true else rest) else rest

module _ (env : Env) (s : AuthService) where
  unfoldable pub create_session_for_user : ℕ → Action AuthSession
  create_session_for_user id = do
    token ← generate_token env
    at ← now env
    Accounts.create_session env id (hash_token s token) (at + s.session_duration)
    pure (record { token = token; expires_at = at + s.session_duration })

  abbrev start_session : User → Action LoginOutcome
  start_session user = do session ← create_session_for_user user.id; pure (logged_in user session)

  -- What follows a password that matches.
  unfoldable pub login_user : User → Action LoginOutcome
  unfolding create_session_for_user
  login_user user =
      find_or (exec env (Totp.get_enabled_totp_by_user_id user.id)) (start_session user)
        (λ _. pure (totp_required_for user))

  unfoldable pub login : Text → Text → Action LoginOutcome
  unfolding login_user
  login email password =
      find_or (Accounts.get_user_by_email env (normalize_email s.platform email))
        (raise invalid_credentials)
        λ user.
          if password_matches s user.password_hash password
          then login_user user
          else raise invalid_credentials

  unfoldable pub user_by_session_token : Text → Action User
  user_by_session_token raw =
      let token = trim_space raw in
      if is_empty token
      then raise invalid_session
      else find_or (Accounts.get_user_by_session_token_hash env (hash_token s token))
          (raise invalid_session) pure

  unfoldable pub logout : Text → Action (Unit {0})
  logout raw =
      let token = trim_space raw in
      if is_empty token
      then raise invalid_session
      else Accounts.delete_session_by_token_hash env (hash_token s token)

  abbrev pub managed : Text → Session → ManagedSession
  managed hash r = record {
    id = r.id;
    created_at = r.created_at;
    expires_at = r.expires_at;
    current = text_eq r.token_hash hash;
  }

  unfoldable pub list_managed_sessions : ℕ → Text → Action (List ManagedSession)
  list_managed_sessions user raw =
      let token = trim_space raw in
      if is_empty token then raise invalid_session else do
        sessions ← Accounts.list_active_sessions_by_user_id env user
        pure (map (managed (hash_token s token)) sessions)

  unfoldable pub revoke_other_sessions : ℕ → Text → Action (Unit {0})
  revoke_other_sessions user raw =
      let token = trim_space raw in
      if is_empty token
      then raise invalid_session
      else (Accounts.delete_other_sessions env user (hash_token s token) >> pure tt)

  -- The second half of RevokeSessionByID, when no row was deleted.
  abbrev explain_miss : ℕ → Text → ℕ → Action (Unit {0})
  explain_miss user hash id = do
    sessions ← Accounts.list_active_sessions_by_user_id env user
    if names_current id hash sessions
        then raise cannot_revoke_current_session
        else raise invalid_session_target

  unfoldable pub revoke_session_by_id : ℕ → Text → ℕ → Action (Unit {0})
  revoke_session_by_id user raw id =
      let token = trim_space raw in
      let hash = hash_token s token in
      if is_empty token
      then raise invalid_session
      else if id == 0
      then raise invalid_session_target
      else do
        deleted ← Accounts.delete_session_by_id env id user hash
        if ltb 0 deleted then pure tt else explain_miss user hash id
