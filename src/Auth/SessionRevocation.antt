-- ===== src/Auth/SessionRevocation.antt =====
-- What the revocation of one session, or of all but the current one, takes away and spares.
use go_spark.Base.{
  keep_if-delete_if, ℕ, Text, text_eq_iff, trim_space, ◌≡◌, refl, sym, ap, subst, ◌∙◌, inl, inr,
  Bool, true, not, List, [], ◌∷◌, All, All-map, is_some, find_if, keep_if, keep_if-test, delete_if,
  count_if, Bool-cases, arith, ltb,
}
use go_spark.Schema.{Db}
use go_spark.Effect.{Env, World, Result, ok, err, ◌>>=◌}
use go_spark.Queries.Sessions
use go_spark.AuthStore.Accounts
use go_spark.Auth.Service.{AuthService, hash_token}
use go_spark.Auth.Sessions.{revoke_session_by_id, revoke_other_sessions}

module _ {A : Type 0} (p : A → Bool) where
  delete_none : (xs : List A) → count_if p xs ≡ 0 → delete_if p xs ≡ xs
  unfolding count_if delete_if keep_if
  delete_none [] h = refl
  delete_none (x ∷ xs) h = elim (Bool-cases (p x)) [
    | inl e ↦ absurd (ground (arith, e, h))
    | inr e ↦ rw e (ap (λ t. x ∷ t) (delete_none xs (rw e at h)))
  ]

  some_counted : (xs : List A) → ltb 0 (count_if p xs) ≡ true → is_some (find_if p xs) ≡ true
  unfolding count_if find_if
  some_counted [] h = ground (arith, h)
  some_counted (x ∷ xs) h = elim (Bool-cases (p x)) [
    | inl e ↦ rw e refl
    | inr e ↦ rw e (some_counted xs (rw e at h))
  ]

-- The database after the revocation of a session, by the result.
abbrev pub RevokedOne : ℕ → ℕ → Text → Db → Result (Unit {0}) → Db → Type 0
RevokedOne id user hash d (ok u) d' =
    (is_some (find_if (Sessions.is_target id user hash) d.sessions) ≡ true)
    × (d' ≡ record d { sessions = delete_if (Sessions.is_target id user hash) d.sessions })
RevokedOne id user hash d (err e) d' = d' ≡ d

module _ (env : Env) (s : AuthService) where
  revoke_result :
      (user : ℕ) (token : Text) (id : ℕ) (w : World) (r : Result (Unit {0}))
      → (revoke_session_by_id env s user token id w).0 ≡ r
      → RevokedOne id user
          (hash_token s (trim_space token))
          w.db
          r
          (revoke_session_by_id env s user token id w).1.db
  unfolding revoke_session_by_id ◌>>=◌ Accounts.delete_session_by_id
      Accounts.list_active_sessions_by_user_id Sessions.delete_session_by_id
      Sessions.list_active_sessions_by_user_id
  revoke_result user token id w (ok u) h =
      (some_counted _ w.db.sessions (ground (arith, h)), ground (arith, h))
  revoke_result user token id w (err e) h = ground (
    arith,
    h,
    delete_none (Sessions.is_target id user (hash_token s (trim_space token))) w.db.sessions,
  )

  -- The revocation of a session by its number succeeds only if the user has such a session other
  -- than the current one, and then takes away just that; if it fails it changes nothing. Either
  -- way the current session stays.
  pub revoke_session_by_id_spares :
      (user : ℕ) (token : Text) (id : ℕ) (w : World)
      → RevokedOne id user
          (hash_token s (trim_space token))
          w.db
          (revoke_session_by_id env s user token id w).0
          (revoke_session_by_id env s user token id w).1.db
        × (keep_if
              (Sessions.by_hash (hash_token s (trim_space token)))
              (revoke_session_by_id env s user token id w).1.db.sessions
            ≡ keep_if (Sessions.by_hash (hash_token s (trim_space token))) w.db.sessions)
  revoke_session_by_id_spares user token id w =
      let hash = hash_token s (trim_space token) in
      (revoke_result user token id w _ refl, stays _ _ (revoke_result user token id w _ refl))
    where
      stays :
          (r : Result (Unit {0})) (d' : Db)
          → RevokedOne id user (hash_token s (trim_space token)) w.db r d'
          → keep_if (Sessions.by_hash (hash_token s (trim_space token))) d'.sessions
            ≡ keep_if (Sessions.by_hash (hash_token s (trim_space token))) w.db.sessions
      stays (ok u) d' (found, e) =
          ap (λ (d : Db). keep_if (Sessions.by_hash (hash_token s (trim_space token))) d.sessions) e
          ∙ keep_if-delete_if (Sessions.is_target id user (hash_token s (trim_space token))) _
              w.db.sessions (λ x f. ground (arith, f))
      stays (err e) d' same =
          ap (λ (d : Db). keep_if (Sessions.by_hash (hash_token s (trim_space token))) d.sessions)
            same

  others_gone :
      (user : ℕ) (token : Text) (w : World)
      → (revoke_other_sessions env s user token w).0 ≡ ok tt
      → (revoke_other_sessions env s user token w).1.db ≡ record w.db {
        sessions =
            delete_if (Sessions.is_other user (hash_token s (trim_space token))) w.db.sessions;
      }
  unfolding revoke_other_sessions ◌>>=◌ Accounts.delete_other_sessions
      Sessions.delete_other_sessions
  others_gone user token w h = ground (arith, h)

  -- After the revocation of the other sessions, every session of the user is the current one. The
  -- current session and the sessions of other users stay, and nothing else changes.
  pub revoke_other_sessions_spares :
      (user : ℕ) (token : Text) (w : World)
      → (revoke_other_sessions env s user token w).0 ≡ ok tt
      → All
          (λ r. r.user_id ≡ user → r.token_hash ≡ hash_token s (trim_space token))
          (revoke_other_sessions env s user token w).1.db.sessions
        × ((revoke_other_sessions env s user token w).1.db ≡ record w.db {
          sessions =
              keep_if
                (λ r. not (Sessions.is_other user (hash_token s (trim_space token)) r))
                w.db.sessions;
        })
  unfolding delete_if
  revoke_other_sessions_spares user token w h =
      let hash = hash_token s (trim_space token) in
      let d = others_gone user token w h in
      (
        subst (λ (x : Db). All (λ r. r.user_id ≡ user → r.token_hash ≡ hash) x.sessions) (sym d)
            (All-map (λ r. not (Sessions.is_other user hash r) ≡ true)
              (λ r. r.user_id ≡ user → r.token_hash ≡ hash)
              (λ r keep same. (text_eq_iff r.token_hash hash).0 (ground (arith, keep, same))) _
              (keep_if-test (λ r. not (Sessions.is_other user hash r)) w.db.sessions)),
        d,
      )
