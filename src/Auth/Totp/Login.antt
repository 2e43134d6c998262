-- ===== src/Auth/Totp/Login.antt =====
-- VerifyTOTPLogin and DisableTOTP of internal/auth/totp.go.
use go_spark.Base.{
  ℕ, ◌*◌, ◌<◌, ◌≡◌, ◌⊎◌, sym, ap, ◌∙◌, inl, inr, Text, true, some, [], ◌∷◌, ◌++◌, find_if,
  find_if-test, find_if-Distinct_test, count_if, trim_space, arith,
}
use go_spark.Schema.{UserTotp, Session, Db}
use go_spark.Effect.{Env, World, ok}
use go_spark.Queries.Totp.{is_enabled, accepts, is_newer}
use go_spark.Validity.{Valid}
use go_spark.Totp.{period}
use go_spark.Auth.Service.{AuthService, hash_token}
use go_spark.Auth.Sessions.{AuthSession, create_session_for_user}
use go_spark.Auth.SessionLaws.{session_row}
use go_spark.Auth.Totp.{verify_totp_login}
use go_spark.Auth.Totp.Replay.{is_usable, hash_of}
use go_spark.Auth.Totp.Factor.{Enabled, ByCode, ByBackup, with_second_factor_ok}

module _ (env : Env) (s : AuthService) where
  -- The code is one of the secret whose counter is above the last one that was accepted, or a
  -- backup code of the user that was not used.
  abbrev pub Passes : ℕ → Text → UserTotp → Text → Db → Type 0
  Passes id code row secret d =
      ((counter : ℕ) × (s.generate_code secret (counter * period) ≡ some (trim_space code))
        × (is_newer counter row.last_used_counter ≡ true))
      ⊎ (0 < count_if (is_usable id (hash_of env s code)) d.totp_backup_codes)

  passes :
      (id : ℕ) (code : Text) (row : UserTotp) (secret : Text) (d d' : Db)
      → Valid d
      → find_if (is_enabled id) d.user_totp ≡ some row
      → (ByCode env s id code secret d d' ⊎ ByBackup env s id code d d')
      → Passes id code row secret d × (d'.sessions ≡ d.sessions)
  passes id code row secret d d' v found (inl (counter, shown, taken, left)) =
      let user = find_if-test (is_enabled id) d.user_totp found in
      let newer =
        find_if-Distinct_test (λ (t : UserTotp). t.user_id) (is_enabled id) (accepts counter id) row
          (λ z h. ground (arith, h, user)) d.user_totp v.totps found taken in
      (inl (counter, shown, ground (arith, newer)), ap (λ (d : Db). d.sessions) left)
  passes id code row secret d d' v found (inr (usable, at, left)) =
      (inr usable, ap (λ (d : Db). d.sessions) left)

  -- In a well-formed database, the second step of a login gives a session only to a user whose
  -- second factor is enabled and whose stored secret decrypts, for a code of that secret whose
  -- counter is above the last one that was accepted, or for a backup code of the user that was not
  -- used. The session is one new row of the user under the hash of the returned token.
  pub verify_totp_login_requires :
      (id : ℕ) (code : Text) (w : World) (session : AuthSession)
      → Valid w.db
      → (verify_totp_login env s id code w).0 ≡ ok session
      → (row : UserTotp) × (secret : Text) × Enabled env s id w row secret
        × Passes id code row secret w.db
        × (new : Session) × (new.user_id ≡ id)
        × (new.token_hash ≡ hash_token s session.token)
        × ((verify_totp_login env s id code w).1.db.sessions ≡ w.db.sessions ++ new ∷ [])
  unfolding verify_totp_login
  verify_totp_login_requires id code w session v h =
      let (row, secret, enabled, w', run, by) =
        with_second_factor_ok env s id code (create_session_for_user env s id) w session h in
      let (how, same) = passes id code row secret w.db w'.db v enabled.0 by in
      let (_, (new, owner, hash, _, left)) =
        session_row env s id w' session (ap (λ r. r.0) (sym run) ∙ h) in
      (
        row,
        secret,
        enabled,
        how,
        new,
        owner,
        hash,
        ap (λ r. r.1.db.sessions) run
            ∙ ap (λ (d : Db). d.sessions) left
            ∙ ap (λ l. l ++ new ∷ []) same,
      )
