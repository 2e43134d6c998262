-- ===== src/Auth/Totp/Enabling.antt =====
-- ConfirmTOTPSetup, RegenerateBackupCodes and DisableTOTP of internal/auth/totp.go, from what they
-- ask for to what they leave.
use go_spark.Base.{
  ℕ, ◌*◌, ◌≡◌, refl, sym, ap, subst, ◌∙◌, inl, inr, Text, Bool, true, false, not, Bool-cases, none,
  some, is_some, not_some, List, [], ◌∷◌, ◌++◌, map, length, find_if, find_if-test, update_if,
  delete_if, keep_if, keep_if-append, keep_if-delete_if, trim_space, arith, if◌then◌else◌,
  find_if-update_if, All-map, keep_if_none,
}
use mathlib.Core.List.{append-nil}
use go_spark.Schema.{UserTotp, TotpBackupCode, Db}
use go_spark.Effect.{
  Env, World, Action, ok, ◌>>=◌, raise, tick, invalid_totp_code, totp_setup_not_started,
}
use go_spark.Effect.Success.{bind_ok, exec_bind_ok, find_or_ok, branch_ok}
use go_spark.Queries.Totp.{of_user, is_enabled, accepts, code_of_user, is_unused}
use go_spark.Queries.Totp
use go_spark.SecretCipher.{decrypt}
use go_spark.Totp.{period}
use go_spark.AuthStore.Totp.{TotpRecord, read_record, get_totp_by_user_id}
use go_spark.Auth.Service.{AuthService}
use go_spark.Auth.Totp.{
  enable, confirm, verify_totp_code, confirm_totp_setup, totp_backup_code_count,
}
use go_spark.Auth.Totp.Replay.{hash_of, claimed_rows, verify_totp_code_claims}
use go_spark.Auth.Totp.Factor.{one_row_ok, read_ok}
use go_spark.Auth.Totp.Codes.{Unused, hashes_of, replaced, keep_if-replaced}
use go_spark.Auth.Totp.Setup.{enabled_rows, Shown, enable_shows}

enabled_after :
    (at user : ℕ) (rows : List UserTotp)
    → is_some (find_if (of_user user) rows) ≡ true
    → is_some (find_if (is_enabled user) (enabled_rows at user rows)) ≡ true
unfolding find_if update_if
enabled_after at user [] h = cc
enabled_after at user (t ∷ rows) h = ground (arith, h, enabled_after at user rows)

kept_others :
    (user : ℕ) (rows old : List TotpBackupCode)
    → Unused user rows
    → keep_if (λ c. not (code_of_user user c)) (replaced user rows old)
      ≡ keep_if (λ c. not (code_of_user user c)) old
kept_others user rows old unused =
    keep_if-append (λ c. not (code_of_user user c)) (delete_if (code_of_user user) old) rows
    ∙ ap (λ l. keep_if (λ c. not (code_of_user user c)) (delete_if (code_of_user user) old) ++ l)
        (keep_if_none (λ c. not (code_of_user user c)) rows
          (All-map (λ c. is_unused user c ≡ true) (λ c. not (code_of_user user c) ≡ false)
            (λ c h. ground (arith, h)) rows unused))
    ∙ append-nil (keep_if (λ c. not (code_of_user user c)) (delete_if (code_of_user user) old))
    ∙ keep_if-delete_if (code_of_user user) (λ c. not (code_of_user user c)) old
        (λ c h. ground (arith, h))

module _ (env : Env) (s : AuthService) where
  Shown-replaced :
      (id : ℕ) (shown : List Text) (rows old : List TotpBackupCode)
      → Unused id rows
      → hashes_of rows ≡ map (hash_of env s) shown
      → length shown ≡ totp_backup_code_count
      → Shown env s id shown old (replaced id rows old)
  Shown-replaced id shown rows old unused same size = (
    size,
    ap hashes_of (keep_if-replaced id rows old unused) ∙ same,
    kept_others id rows old unused,
  )

  pub pending_row :
      (id : ℕ) (w : World) (r : TotpRecord)
      → (get_totp_by_user_id env s.platform s.totp_secrets id w).0 ≡ ok r
      → (row : UserTotp) × (find_if (of_user id) w.db.user_totp ≡ some row)
        × (decrypt s.platform s.totp_secrets row.secret ≡ ok r.secret)
        × (r.user_id ≡ row.user_id)
        × (r.enabled_at ≡ row.enabled_at)
        × ((get_totp_by_user_id env s.platform s.totp_secrets id w).1.db ≡ w.db)
  unfolding get_totp_by_user_id Totp.get_totp_by_user_id
  pending_row id w r h =
      let (row, d, q, e) =
        exec_bind_ok env (Totp.get_totp_by_user_id id) (read_record env s.platform s.totp_secrets) w
          r h in
      let (found, same) = one_row_ok (find_if (of_user id) w.db.user_totp) w.db d row q in
      let (secret, user, at, left) =
        read_ok env s row (record (tick w) { db = d }) r _ refl (ap (λ x. x.0) (sym e) ∙ h) in
      (row, found, secret, user, at, ap (λ x. x.1.db) e ∙ ap (λ (w : World). w.db) left ∙ same)

  confirm_ok :
      (id : ℕ) (code : Text) (r : TotpRecord) (w : World) (shown : List Text)
      → r.user_id ≡ id
      → is_some (find_if (of_user id) w.db.user_totp) ≡ true
      → (confirm env s id code r w).0 ≡ ok shown
      → (r.enabled_at ≡ none)
        × (counter : ℕ) × (s.generate_code r.secret (counter * period) ≡ some (trim_space code))
        × (is_some (find_if (is_enabled id) (confirm env s id code r w).1.db.user_totp) ≡ true)
        × Shown env s id shown w.db.totp_backup_codes
            (confirm env s id code r w).1.db.totp_backup_codes
  unfolding raise
  confirm_ok id code r w shown user here h = elim (Bool-cases (is_some r.enabled_at)) [
    | inl e ↦ absurd (cc (rw e at h))
    | inr e ↦
        let finish : Bool → Action (List Text) =
          λ verified. if verified then enable env s id else raise invalid_totp_code in
        let run : confirm env s id code r w ≡ (verify_totp_code env s r code >>= finish) w =
          rw e refl in
        let (verified, v, q) =
          bind_ok (verify_totp_code env s r code) finish w shown (ap (λ x. x.0) (sym run) ∙ h) in
        let w1 = (verify_totp_code env s r code w).1 in
        let (accepted, taken) =
          branch_ok verified (enable env s id) invalid_totp_code w1 shown
            (ap (λ x. x.0) (sym (run ∙ q)) ∙ h) in
        let (counter, is_code, claimed, _) =
          verify_totp_code_claims env s r code w (v ∙ ap ok accepted) in
        let all = run ∙ q ∙ taken in
        let (at, rows, unused, same, size, left) =
          enable_shows env s id w1 shown (ap (λ x. x.0) (sym all) ∙ h) in
        let reached =
          ap (λ x. x.1.db) all
          ∙ left
          ∙ ap
              (λ (d : Db). record d {
                user_totp = enabled_rows at id d.user_totp;
                totp_backup_codes = replaced id rows d.totp_backup_codes;
              })
              claimed in
        (
          not_some _ e,
          counter,
          is_code,
          subst (λ (d : Db). is_some (find_if (is_enabled id) d.user_totp) ≡ true) (sym reached)
              (enabled_after at id (claimed_rows counter r.user_id w.db.user_totp) (
                find_if-update_if (of_user id) (accepts counter r.user_id)
                  (λ t. record t { last_used_counter = some counter }) (λ t. refl) w.db.user_totp
                ∙ here)),
          subst (λ (d : Db). Shown env s id shown w.db.totp_backup_codes d.totp_backup_codes)
              (sym reached) (Shown-replaced id shown rows w.db.totp_backup_codes unused same size),
        )
  ]

  -- A setup is confirmed only with a pending second factor whose stored secret decrypts and a code
  -- of that secret. Then the user has an enabled second factor and eight unused backup codes: their
  -- hashes are those of the codes that are returned, in order. The backup codes of other users stay.
  pub confirm_totp_setup_enables :
      (id : ℕ) (code : Text) (w : World) (shown : List Text)
      → (confirm_totp_setup env s id code w).0 ≡ ok shown
      → (row : UserTotp) × (secret : Text) × (find_if (of_user id) w.db.user_totp ≡ some row)
        × (row.enabled_at ≡ none)
        × (decrypt s.platform s.totp_secrets row.secret ≡ ok secret)
        × (counter : ℕ) × (s.generate_code secret (counter * period) ≡ some (trim_space code))
        × (is_some (find_if (is_enabled id) (confirm_totp_setup env s id code w).1.db.user_totp)
            ≡ true)
        × Shown env s id shown w.db.totp_backup_codes
            (confirm_totp_setup env s id code w).1.db.totp_backup_codes
  unfolding confirm_totp_setup
  confirm_totp_setup_enables id code w shown h =
      let get = get_totp_by_user_id env s.platform s.totp_secrets id in
      let (r, e, q) = find_or_ok get totp_setup_not_started (confirm env s id code) w shown h in
      let (row, found, secret, user, at, same) = pending_row id w r e in
      let is_user : r.user_id ≡ id =
        user ∙ ground (arith, find_if-test (of_user id) w.db.user_totp found) in
      let w1 = (get w).1 in
      let here : is_some (find_if (of_user id) w1.db.user_totp) ≡ true =
        ground (arith, same, found) in
      let (pending, counter, is_code, enabled, codes) =
        confirm_ok id code r w1 shown is_user here (ap (λ x. x.0) (sym q) ∙ h) in
      (
        row,
        r.secret,
        found,
        sym at ∙ pending,
        secret,
        counter,
        is_code,
        ap (λ x. is_some (find_if (is_enabled id) x.1.db.user_totp)) q ∙ enabled,
        subst (λ x. Shown env s id shown w.db.totp_backup_codes x.1.db.totp_backup_codes) (sym q)
            (subst
              (λ (d : Db).
                Shown env s id shown d.totp_backup_codes
                  (confirm env s id code r w1).1.db.totp_backup_codes)
              same codes),
      )
