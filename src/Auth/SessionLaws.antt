-- ===== src/Auth/SessionLaws.antt =====
-- What a login gives, and what ends a session.
use go_spark.Base.{
  ℕ, suc, Text, ◌≡◌, refl, sym, ap, subst, ◌∙◌, inl, inr, true, [], ◌∷◌, ◌++◌, Option, none, some,
  is_some, find_if, Bool-cases, arith,
}
use go_spark.Schema.{User, Session, UserTotp, Db}
use go_spark.Effect.{Env, World, Result, ok, err, ◌>>=◌, is_no_rows, tick}
use go_spark.Queries.Users.{by_email, get_user_by_email}
use go_spark.Queries.Sessions
use go_spark.Queries.Totp.{is_enabled, get_enabled_totp_by_user_id}
use go_spark.AuthStore.Accounts
use go_spark.Auth.Service.{AuthService, hash_token, generate_token, password_matches}
use go_spark.Auth.Addresses.{normalize_email}
use go_spark.Auth.Atomicity.{login-Atomic}
use go_spark.Auth.Sessions.{
  AuthSession, LoginOutcome, logged_in, totp_required_for, login, login_user,
  create_session_for_user,
}

module _ (env : Env) (s : AuthService) where
  -- What a login promises, by its result.
  abbrev pub Login : Text → Text → Db → Result LoginOutcome → Db → Type 0
  Login email password d (ok (logged_in u session)) d' =
      (find_if (by_email (normalize_email s.platform email)) d.users ≡ some u)
      × (password_matches s u.password_hash password ≡ true)
      × (find_if (is_enabled u.id) d.user_totp ≡ none)
      × (find_if (Sessions.by_hash (hash_token s session.token)) d.sessions ≡ none)
      × ((row : Session) × (row.user_id ≡ u.id)
          × (row.token_hash ≡ hash_token s session.token)
          × (row.expires_at ≡ session.expires_at)
          × (d' ≡ record d { sessions = d.sessions ++ row ∷ [] }))
  Login email password d (ok (totp_required_for u)) d' =
      (find_if (by_email (normalize_email s.platform email)) d.users ≡ some u)
      × (password_matches s u.password_hash password ≡ true)
      × (is_some (find_if (is_enabled u.id) d.user_totp) ≡ true)
      × (d' ≡ d)
  Login email password d (err e) d' = d' ≡ d

  create_sets :
      (id : ℕ) (w : World) (session : AuthSession) (o : Option Session)
      → find_if (Sessions.by_hash (hash_token s (env.random w.step))) w.db.sessions ≡ o
      → (create_session_for_user env s id w).0 ≡ ok session
      → (o ≡ none)
        × (session.token ≡ env.random w.step)
        × ((create_session_for_user env s id w).1.db ≡ record w.db {
          sessions =
              w.db.sessions
              ++ Sessions.new_session id
                  (hash_token s session.token)
                  session.expires_at
                  (env.clock (suc (suc w.step)))
                  w.db.sessions
                ∷ [];
        })
  unfolding create_session_for_user ◌>>=◌ generate_token Accounts.create_session
      Sessions.create_session
  create_sets id w session none e h = (refl, ground (arith, e), ground (arith, e))
  create_sets id w session (some x) e h = absurd (ground (arith, e))

  pub session_row :
      (id : ℕ) (w : World) (session : AuthSession)
      → (create_session_for_user env s id w).0 ≡ ok session
      → (find_if (Sessions.by_hash (hash_token s session.token)) w.db.sessions ≡ none)
        × ((row : Session) × (row.user_id ≡ id)
            × (row.token_hash ≡ hash_token s session.token)
            × (row.expires_at ≡ session.expires_at)
            × ((create_session_for_user env s id w).1.db
                ≡ record w.db { sessions = w.db.sessions ++ row ∷ [] }))
  session_row id w session h =
      let (free, same, d) = create_sets id w session _ refl h in
      (
        rw same free,
        (
          Sessions.new_session id (hash_token s session.token) session.expires_at
              (env.clock (suc (suc w.step))) w.db.sessions,
          refl,
          refl,
          refl,
          d,
        ),
      )

  abbrev enabled_of : User → World → Option UserTotp
  enabled_of u w = find_if (is_enabled u.id) w.db.user_totp

  login_none :
      (u v : User) (w : World) (session : AuthSession) (r : Result AuthSession)
      → enabled_of u w ≡ none
      → (create_session_for_user env s u.id (tick w)).0 ≡ r
      → (login_user env s u w).0 ≡ ok (logged_in v session)
      → (u ≡ v)
        × ((create_session_for_user env s u.id (tick w)).0 ≡ ok session)
        × ((login_user env s u w).1 ≡ (create_session_for_user env s u.id (tick w)).1)
  unfolding login_user ◌>>=◌ get_enabled_totp_by_user_id is_no_rows
  login_none u v w session (err x) e r h = absurd (ground (arith, e, r))
  login_none u v w session (ok x) e r h =
      (ground (arith, e, r), ground (arith, e, r), ground (arith, e, r))

  -- The second half of a login, by its result.
  login_user-Login :
      (email password : Text) (u : User) (w : World) (out : LoginOutcome) (o : Option UserTotp)
      → find_if (by_email (normalize_email s.platform email)) w.db.users ≡ some u
      → password_matches s u.password_hash password ≡ true
      → enabled_of u w ≡ o
      → (login_user env s u w).0 ≡ ok out
      → Login email password w.db (ok out) (login_user env s u w).1.db
  unfolding login_user ◌>>=◌ get_enabled_totp_by_user_id is_no_rows
  login_user-Login email password u w (logged_in v session) (some t) q m e h =
      absurd (ground (arith, e))
  login_user-Login email password u w (totp_required_for v) none q m e h =
      absurd (ground (arith, e))
  login_user-Login email password u w (totp_required_for v) (some t) q m e h =
      let same : u ≡ v = ground (arith, e) in
      (
        q ∙ ap (λ x. some x) same,
        subst (λ (x : User). password_matches s x.password_hash password ≡ true) same m,
        subst (λ (x : User). is_some (enabled_of x w) ≡ true) same (rw e refl),
        ground (arith, e),
      )
  login_user-Login email password u w (logged_in v session) none q m e h =
      let (same, started, left) = login_none u v w session _ e refl h in
      let (free, (row, owner, hash, expiry, d)) = session_row u.id (tick w) session started in
      subst (λ x. Login email password w.db (ok (logged_in x session)) (login_user env s u w).1.db)
        same (q, m, e, free, (row, owner, hash, expiry, ap (λ (x : World). x.db) left ∙ d))

  login_found :
      (email password : Text) (w : World) (out : LoginOutcome) (o : Option User)
      → find_if (by_email (normalize_email s.platform email)) w.db.users ≡ o
      → (login env s email password w).0 ≡ ok out
      → Login email password w.db (ok out) (login env s email password w).1.db
  unfolding login ◌>>=◌ Accounts.get_user_by_email get_user_by_email
  login_found email password w out none q h = absurd (ground (arith, q))
  login_found email password w out (some u) q h =
      elim (Bool-cases (password_matches s u.password_hash password)) [
        | inl m ↦
            (let same : login env s email password w ≡ login_user env s u (tick w) =
                ground (arith, q, m) in
              subst (λ r. Login email password w.db (ok out) r.1.db) (sym same)
                (login_user-Login email password u (tick w) out _ q m refl
                  (sym (ap (λ r. r.0) same) ∙ h)))
        | inr m ↦ absurd (ground (arith, q, m))
      ]

  login_result :
      (email password : Text) (w : World) (r : Result LoginOutcome)
      → (login env s email password w).0 ≡ r
      → Login email password w.db r (login env s email password w).1.db
  login_result email password w (ok out) h = login_found email password w out _ refl h
  login_result email password w (err e) h = (login-Atomic env s email password).at w e h

  -- A login gives a session only for the user of the normalized address, with that user's
  -- password, and without an enabled TOTP; the session is a new row of its own under the hash of
  -- the token that is returned, and nothing else changes. With an enabled TOTP it gives no session
  -- and changes nothing, and a login that fails changes nothing.
  pub login_outcomes :
      (email password : Text) (w : World)
      → Login email password w.db
          (login env s email password w).0
          (login env s email password w).1.db
  login_outcomes email password w = login_result email password w _ refl
