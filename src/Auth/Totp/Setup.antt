-- ===== src/Auth/Totp/Setup.antt =====
-- ConfirmTOTPSetup, RegenerateBackupCodes and DisableTOTP of internal/auth/totp.go.
use go_spark.Base.{
  ℕ, ◌≡◌, sym, ap, subst, ◌∙◌, Text, not, ◌&&◌, some, is_some, List, ◌++◌, map, length, update_if,
  keep_if, arith,
}
use go_spark.Schema.{UserTotp, TotpBackupCode, Db}
use go_spark.Effect.{Env, World, Action, ok, ◌>>=◌, ◌>>◌, pure, now, exec, tick}
use go_spark.Effect.Success.{bind_ok, exec_bind_ok, with_tx_ok}
use go_spark.Queries.Totp.{of_user, is_enabled, accepts, code_of_user, is_unused}
use go_spark.Queries.Totp
use go_spark.AuthStore.Totp.{create_codes, enable_totp_with_backup_codes, replace_backup_codes}
use go_spark.Auth.Service.{AuthService}
use go_spark.Auth.BackupCodes.{generate_backup_codes}
use go_spark.Auth.Totp.{enable, totp_backup_code_count}
use go_spark.Auth.Totp.Replay.{hash_of}
use go_spark.Auth.Totp.Codes.{Unused, hashes_of, replaced, create_codes_ok, generate_ok}

-- The second factors once the pending one of the user is enabled.
abbrev pub enabled_rows : ℕ → ℕ → List UserTotp → List UserTotp
enabled_rows at user =
    update_if (λ t. of_user user t && not (is_some t.enabled_at))
      (λ t. record t { enabled_at = some at })

module _ (env : Env) where
  abbrev rewrite : ℕ → List Text → Action (Unit {0})
  rewrite user hashes = do
    exec env (Totp.delete_totp_backup_codes_by_user_id user)
    create_codes env user hashes

  -- What both transactions end with.
  rewrite_ok :
      (user : ℕ) (hashes : List Text) (w : World)
      → (rewrite user hashes w).0 ≡ ok tt
      → (rows : List TotpBackupCode) × Unused user rows
        × (hashes_of rows ≡ hashes)
        × ((rewrite user hashes w).1.db
            ≡ record w.db { totp_backup_codes = replaced user rows w.db.totp_backup_codes })
  unfolding Totp.delete_totp_backup_codes_by_user_id
  rewrite_ok user hashes w h =
      let (_, d, step, e) =
        exec_bind_ok env (Totp.delete_totp_backup_codes_by_user_id user)
          (λ _. create_codes env user hashes) w tt h in
      let (rows, unused, same, created) =
        create_codes_ok env user hashes (record (tick w) { db = d }) (ap (λ r. r.0) (sym e) ∙ h) in
      (
        rows,
        unused,
        same,
        ap (λ r. r.1.db) e
            ∙ created
            ∙ ap (λ (d : Db). record d { totp_backup_codes = d.totp_backup_codes ++ rows })
                (ground (arith, step)),
      )

  replace_ok :
      (user : ℕ) (hashes : List Text) (w : World)
      → (replace_backup_codes env user hashes w).0 ≡ ok tt
      → (rows : List TotpBackupCode) × Unused user rows
        × (hashes_of rows ≡ hashes)
        × ((replace_backup_codes env user hashes w).1.db
            ≡ record w.db { totp_backup_codes = replaced user rows w.db.totp_backup_codes })
  unfolding replace_backup_codes
  replace_ok user hashes w h =
      let (done, left) = with_tx_ok env (rewrite user hashes) w tt h in
      let (rows, unused, same, created) = rewrite_ok user hashes (tick w) done in
      (rows, unused, same, ap (λ (w : World). w.db) left ∙ created)

  enable_ok :
      (user at : ℕ) (hashes : List Text) (w : World)
      → (enable_totp_with_backup_codes env user at hashes w).0 ≡ ok tt
      → (rows : List TotpBackupCode) × Unused user rows
        × (hashes_of rows ≡ hashes)
        × ((enable_totp_with_backup_codes env user at hashes w).1.db ≡ record w.db {
          user_totp = enabled_rows at user w.db.user_totp;
          totp_backup_codes = replaced user rows w.db.totp_backup_codes;
        })
  unfolding enable_totp_with_backup_codes Totp.enable_totp
  enable_ok user at hashes w h =
      let (done, left) =
        with_tx_ok env (exec env (Totp.enable_totp at user) >>= λ _. rewrite user hashes) w tt h in
      let (_, d, step, e) =
        exec_bind_ok env (Totp.enable_totp at user) (λ _. rewrite user hashes) (tick w) tt done in
      let (rows, unused, same, created) =
        rewrite_ok user hashes (record (tick (tick w)) { db = d }) (ap (λ r. r.0) (sym e) ∙ done) in
      (
        rows,
        unused,
        same,
        ap (λ (w : World). w.db) left
            ∙ ap (λ r. r.1.db) e
            ∙ created
            ∙ ap
                (λ (d : Db). record d {
                  totp_backup_codes = replaced user rows d.totp_backup_codes;
                })
                (ground (arith, step)),
      )

module _ (env : Env) (s : AuthService) where
  -- The unused backup codes of the user are the eight that were returned, in order, and the codes
  -- of other users stay.
  abbrev pub Shown : ℕ → List Text → List TotpBackupCode → List TotpBackupCode → Type 0
  Shown id shown old new =
      (length shown ≡ totp_backup_code_count)
      × (hashes_of (keep_if (is_unused id) new) ≡ map (hash_of env s) shown)
      × (keep_if (λ c. not (code_of_user id c)) new ≡ keep_if (λ c. not (code_of_user id c)) old)

  -- Enabling succeeds with the codes that it stores.
  pub enable_shows :
      (id : ℕ) (w : World) (shown : List Text)
      → (enable env s id w).0 ≡ ok shown
      → (at : ℕ) × (rows : List TotpBackupCode) × Unused id rows
        × (hashes_of rows ≡ map (hash_of env s) shown)
        × (length shown ≡ totp_backup_code_count)
        × ((enable env s id w).1.db ≡ record w.db {
          user_totp = enabled_rows at id w.db.user_totp;
          totp_backup_codes = replaced id rows w.db.totp_backup_codes;
        })
  unfolding pure now
  enable_shows id w shown h =
      let gen = generate_backup_codes s.platform env totp_backup_code_count s.backup_code_key in
      let keep : List Text → ℕ → List Text → Action (List Text) =
        λ shown at hashes. enable_totp_with_backup_codes env id at hashes >>= λ _. pure shown in
      let later : List Text × List Text → Action (List Text) =
        λ (shown, hashes). now env >>= λ at. keep shown at hashes in
      let (r, e, q) = bind_ok gen later w shown h in
      let w1 = (gen w).1 in
      let (at, e1, q1) =
        bind_ok (now env) (λ at. keep r.0 at r.1) w1 shown (ap (λ x. x.0) (sym q) ∙ h) in
      let w2 = (now env w1).1 in
      let (_, e2, q2) =
        bind_ok (enable_totp_with_backup_codes env id at r.1) (λ _. pure r.0) w2 shown
          (ap (λ x. x.0) (sym (q ∙ q1)) ∙ h) in
      let (pairs, size, db) =
        generate_ok env s.platform totp_backup_code_count s.backup_code_key w r e in
      let (rows, unused, same, left) = enable_ok env id at r.1 w2 e2 in
      let is_shown : r.0 ≡ shown = ground (arith, q, q1, q2, h) in
      (
        at,
        rows,
        unused,
        same ∙ pairs ∙ ap (map (hash_of env s)) is_shown,
        subst (λ l. length l ≡ totp_backup_code_count) is_shown size,
        ap (λ x. x.1.db) (q ∙ q1 ∙ q2)
            ∙ left
            ∙ ap
                (λ (d : Db). record d {
                  user_totp = enabled_rows at id d.user_totp;
                  totp_backup_codes = replaced id rows d.totp_backup_codes;
                })
                db,
      )
