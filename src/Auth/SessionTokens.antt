-- ===== src/Auth/SessionTokens.antt =====
-- Session tokens: from the login that gives one to the logout that ends it, and what a revocation
-- spares.
use go_spark.Base.{
  ℕ, Text, text_eq, text_eq_refl, trim_space, is_empty, ◌≡◌, ◌≢◌, refl, ap, subst, ◌∙◌, inl, inr,
  Bool, false, not, ◌&&◌, List, [], ◌∷◌, ◌++◌, All-map, none, some, Distinct, find_if, keep_if,
  keep_if-test, delete_if, find_if-All, All-find_if-none, Bool-cases, arith, ◌<◌,
}
use go_spark.Schema.{User, Session, Db}
use go_spark.Effect.{Env, World, ok, ◌>>=◌}
use go_spark.Queries.Users.{by_id}
use go_spark.Queries.Sessions
use go_spark.Validity.{Valid}
use go_spark.AuthStore.Accounts
use go_spark.Auth.Service.{AuthService, hash_token}
use go_spark.Auth.Sessions.{AuthSession, logged_in, login, logout, user_by_session_token}
use go_spark.Auth.SessionLaws.{Login, login_outcomes}

-- A user who is found by some test is found by the row number.
same_id :
    (users : List User) (p : User → Bool) (u : User)
    → Distinct (λ (x : User). x.id) users
    → find_if p users ≡ some u
    → find_if (by_id u.id) users ≡ some u
unfolding find_if
same_id [] p u d h = absurd (cc h)
same_id (x ∷ xs) p u d h = elim (Bool-cases (p x)) [
  | inl e ↦ (let same : x ≡ u = cc (rw e at h) in ground (arith, same))
  | inr e ↦
      (let apart : x.id ≢ u.id = find_if-All p (λ y. x.id ≢ y.id) xs d.0 (rw e at h) in
        ground (arith, apart, same_id xs p u d.1 (rw e at h)))
]

abbrev is_session : Text → ℕ → Session → Bool
is_session hash now r = Sessions.by_hash hash r && Sessions.is_active now r

last_session :
    (hash : Text) (now : ℕ) (rows : List Session) (row : Session)
    → find_if (Sessions.by_hash hash) rows ≡ none
    → row.token_hash ≡ hash
    → now < row.expires_at
    → find_if (is_session hash now) (rows ++ row ∷ []) ≡ some row
unfolding find_if
last_session hash now [] row h q l = rw q (ground (arith, l, text_eq_refl hash))
last_session hash now (x ∷ xs) row h q l = elim (Bool-cases (Sessions.by_hash hash x)) [
  | inl e ↦ absurd (cc (rw e at h))
  | inr e ↦ rw e (last_session hash now xs row (rw e at h) q l)
]

query_finds :
    (hash : Text) (now : ℕ) (d : Db) (row : Session) (u : User)
    → find_if (is_session hash now) d.sessions ≡ some row
    → find_if (by_id row.user_id) d.users ≡ some u
    → Sessions.get_user_by_session_token_hash hash now d ≡ ok (u, d)
unfolding Sessions.get_user_by_session_token_hash
query_finds hash now d row u q r = ground (arith, q, r)

module _ (env : Env) (s : AuthService) where
  finds_user :
      (token : Text) (w : World) (row : Session) (u : User)
      → trim_space token ≡ token
      → is_empty token ≡ false
      → env.fails w.step ≡ false
      → find_if (is_session (hash_token s token) (env.clock w.step)) w.db.sessions ≡ some row
      → find_if (by_id row.user_id) w.db.users ≡ some u
      → (user_by_session_token env s token w).0 ≡ ok u
  unfolding user_by_session_token ◌>>=◌ Accounts.get_user_by_session_token_hash
  finds_user token w row u trim full works q r =
      rw (trim, full, works, query_finds (hash_token s token) (env.clock w.step) w.db row u q r)
        refl

  -- The session of a login is found again: in a well-formed database, as long as the session has
  -- not expired, its token gives the user who logged in, unless the lookup itself fails. The
  -- token is to be a text without space around it, as the encoded random bytes are.
  pub login_then_session :
      (email password : Text) (w : World) (u : User) (session : AuthSession) (later : World)
      → Valid w.db
      → (login env s email password w).0 ≡ ok (logged_in u session)
      → trim_space session.token ≡ session.token
      → is_empty session.token ≡ false
      → later.db ≡ (login env s email password w).1.db
      → env.fails later.step ≡ false
      → env.clock later.step < session.expires_at
      → (user_by_session_token env s session.token later).0 ≡ ok u
  login_then_session email password w u session later v h trim full same works l =
      let promised =
        subst (λ r. Login env s email password w.db r (login env s email password w).1.db) h
          (login_outcomes env s email password w) in
      let (found, right, no_totp, free, (row, owner, hash, expiry, d)) = promised in
      let rows : later.db.sessions ≡ w.db.sessions ++ row ∷ [] =
        ap (λ (x : Db). x.sessions) (same ∙ d) in
      let users : later.db.users ≡ w.db.users = ap (λ (x : Db). x.users) (same ∙ d) in
      finds_user session.token later row u trim full works
        (rw rows (last_session _ (env.clock later.step) w.db.sessions row free hash (rw expiry l)))
        (rw (users, owner) (same_id w.db.users _ u v.users.ids found))

  gone :
      (token : Text) (w : World) (u : User)
      → find_if (is_session (hash_token s (trim_space token)) (env.clock w.step)) w.db.sessions
        ≡ none
      → (user_by_session_token env s token w).0 ≢ ok u
  unfolding user_by_session_token ◌>>=◌ Accounts.get_user_by_session_token_hash
      Sessions.get_user_by_session_token_hash
  gone token w u q h = ground (arith, q)

  logout_sets :
      (token : Text) (w : World)
      → (logout env s token w).0 ≡ ok tt
      → (logout env s token w).1.db ≡ record w.db {
        sessions = delete_if (Sessions.by_hash (hash_token s (trim_space token))) w.db.sessions;
      }
  unfolding logout ◌>>=◌ Accounts.delete_session_by_token_hash Sessions.delete_session_by_token_hash
  logout_sets token w h = ground arith

  -- After a logout that succeeds the token gives no user, while the table of sessions is as the
  -- logout left it; and the sessions of every other token are still there.
  pub logout_ends :
      (token : Text) (w : World)
      → (logout env s token w).0 ≡ ok tt
      → ((later : World) (u : User)
          → later.db.sessions ≡ (logout env s token w).1.db.sessions
          → (user_by_session_token env s token later).0 ≢ ok u)
        × ((logout env s token w).1.db ≡ record w.db {
          sessions =
              keep_if
                (λ r. not (text_eq r.token_hash (hash_token s (trim_space token))))
                w.db.sessions;
        })
  unfolding delete_if
  logout_ends token w h =
      let hash = hash_token s (trim_space token) in
      let d = logout_sets token w h in
      (
        (λ later u same. gone token later u (
            rw (same, ap (λ (x : Db). x.sessions) d)
              (All-find_if-none (is_session hash (env.clock later.step)) _ (
                All-map _ (λ r. is_session hash (env.clock later.step) r ≡ false)
                  (λ r miss. ground (arith, miss)) _
                  (keep_if-test (λ r. not (Sessions.by_hash hash r)) w.db.sessions))))),
        d,
      )
