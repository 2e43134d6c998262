-- ===== src/Auth/Totp/Factor.antt =====
-- What DisableTOTP, RegenerateBackupCodes and VerifyTOTPLogin of internal/auth/totp.go ask for
-- before they act.
use go_spark.Base.{
  ℕ, ◌*◌, ◌<◌, ◌≡◌, ◌⊎◌, refl, sym, ap, subst, ◌∙◌, inl, inr, Text, Bool, true, false, Option, none,
  some, find_if, find_if-test, count_if, trim_space, arith, if◌then◌else◌, Bool-cases,
}
use go_spark.Schema.{UserTotp, Db}
use go_spark.Effect.{
  Env, World, Result, ok, err, Action, ◌>>=◌, raise, tick, totp_not_enabled, invalid_totp_code,
}
use go_spark.Effect.Success.{bind_ok, exec_bind_ok, find_or_ok, branch_ok}
use go_spark.Queries.Totp.{of_user, is_enabled, accepts}
use go_spark.Queries.Totp
use go_spark.Queries.Users.{one_row}
use go_spark.SecretCipher.{decrypt}
use go_spark.Totp.{period}
use go_spark.AuthStore.Totp.{TotpRecord, read_record, get_enabled_totp_by_user_id}
use go_spark.Auth.Service.{AuthService}
use go_spark.Auth.Totp.{verify_totp_code, consume_backup_code, with_second_factor}
use go_spark.Auth.Totp.Replay.{
  claimed_rows, is_usable, spent_codes, hash_of, verify_totp_code_claims, verify_totp_code_rejects,
  consume_leaves,
}

pub one_row_ok :
    {A : Type 0} (o : Option A) (d d' : Db) (a : A)
    → one_row o d ≡ ok (a, d')
    → (o ≡ some a) × (d' ≡ d)
one_row_ok none d d' a h = absurd (cc h)
one_row_ok (some b) d d' a h = (ground (arith, h), ground (arith, h))

module _ (env : Env) (s : AuthService) where
  pub read_ok :
      (row : UserTotp) (w : World) (r : TotpRecord) (o : Result Text)
      → decrypt s.platform s.totp_secrets row.secret ≡ o
      → (read_record env s.platform s.totp_secrets row w).0 ≡ ok r
      → (o ≡ ok r.secret)
        × (r.user_id ≡ row.user_id)
        × (r.enabled_at ≡ row.enabled_at)
        × ((read_record env s.platform s.totp_secrets row w).1 ≡ w)
  unfolding read_record ◌>>=◌
  read_ok row w r (ok t) e h =
      (ground (arith, e, h), ground (arith, e, h), ground (arith, e, h), ground (arith, e, h))
  read_ok row w r (err x) e h = absurd (ground (arith, e, h))

  -- The row of the user's enabled second factor, and its secret.
  abbrev pub Enabled : ℕ → World → UserTotp → Text → Type 0
  Enabled id w row secret =
      (find_if (is_enabled id) w.db.user_totp ≡ some row)
      × (decrypt s.platform s.totp_secrets row.secret ≡ ok secret)

  factor_row :
      (id : ℕ) (w : World) (r : TotpRecord)
      → (get_enabled_totp_by_user_id env s.platform s.totp_secrets id w).0 ≡ ok r
      → (row : UserTotp) × (Enabled id w row r.secret)
        × (r.user_id ≡ row.user_id)
        × ((get_enabled_totp_by_user_id env s.platform s.totp_secrets id w).1.db ≡ w.db)
  unfolding get_enabled_totp_by_user_id Totp.get_enabled_totp_by_user_id
  factor_row id w r h =
      let (row, d, q, e) =
        exec_bind_ok env (Totp.get_enabled_totp_by_user_id id)
          (read_record env s.platform s.totp_secrets) w r h in
      let (found, same) = one_row_ok (find_if (is_enabled id) w.db.user_totp) w.db d row q in
      let (secret, user, _, left) =
        read_ok row (record (tick w) { db = d }) r _ refl (ap (λ x. x.0) (sym e) ∙ h) in
      (row, (found, secret), user, ap (λ x. x.1.db) e ∙ ap (λ (w : World). w.db) left ∙ same)

  -- A code of the secret, of a window whose counter the user's second factor takes.
  abbrev pub ByCode : ℕ → Text → Text → Db → Db → Type 0
  ByCode id code secret d d' =
      (counter : ℕ) × (s.generate_code secret (counter * period) ≡ some (trim_space code))
      × (0 < count_if (accepts counter id) d.user_totp)
      × (d' ≡ record d { user_totp = claimed_rows counter id d.user_totp })

  -- A backup code of the user that was not used.
  abbrev pub ByBackup : ℕ → Text → Db → Db → Type 0
  ByBackup id code d d' =
      (0 < count_if (is_usable id (hash_of env s code)) d.totp_backup_codes)
      × (at : ℕ) × (d' ≡ record d {
        totp_backup_codes = spent_codes at id (hash_of env s code) d.totp_backup_codes;
      })

  module _ {A : Type 0} (id : ℕ) (code : Text) (action : Action A) where
    abbrev or_backup : Bool → Action A
    or_backup verified = if verified then action else (do
      consumed ← consume_backup_code env s id code
      if consumed then action else raise invalid_totp_code)

    backup_ok :
        (w : World) (a : A) (verified : Bool)
        → verified ≡ false
        → (or_backup verified w).0 ≡ ok a
        → (0 < count_if (is_usable id (hash_of env s code)) w.db.totp_backup_codes)
          × (w' : World) × (or_backup verified w ≡ action w')
          × (w'.db ≡ record w.db {
            totp_backup_codes =
                spent_codes (env.clock w.step) id (hash_of env s code) w.db.totp_backup_codes;
          })
    backup_ok w a true e h = absurd (cc e)
    backup_ok w a false _ h =
        let (b, e, q) =
          bind_ok (consume_backup_code env s id code)
            (λ b. if b then action else raise invalid_totp_code) w a h in
        let (left, positive) = consume_leaves env s id code w b e in
        let (accepted, taken) =
          branch_ok b action invalid_totp_code _ a (ap (λ x. x.0) (sym q) ∙ h) in
        (
          ground (arith, positive, accepted),
          (consume_backup_code env s id code w).1,
          q ∙ taken,
          left,
        )

    verified_ok :
        (r : TotpRecord) (w : World) (a : A)
        → r.user_id ≡ id
        → ((verify_totp_code env s r code >>= or_backup) w).0 ≡ ok a
        → (w' : World) × (((verify_totp_code env s r code >>= or_backup) w) ≡ action w')
          × (ByCode id code r.secret w.db w'.db ⊎ ByBackup id code w.db w'.db)
    verified_ok r w a user h =
        let (verified, e, q) = bind_ok (verify_totp_code env s r code) or_backup w a h in
        let w1 = (verify_totp_code env s r code w).1 in
        elim (Bool-cases verified) [
          | inl y ↦
              let (counter, shown, left, taken) =
                verify_totp_code_claims env s r code w (e ∙ ap ok y) in
              (
                w1,
                q ∙ ap (λ b. or_backup b w1) y,
                inl (
                  counter,
                  shown,
                  subst (λ u. 0 < count_if (accepts counter u) w.db.user_totp) user taken,
                  left
                      ∙ ap (λ u. record w.db { user_totp = claimed_rows counter u w.db.user_totp })
                          user,
                ),
              )
          | inr n ↦
              let same = verify_totp_code_rejects env s r code w (e ∙ ap ok n) in
              let (usable, w', run, left) = backup_ok w1 a verified n (ap (λ x. x.0) (sym q) ∙ h) in
              (
                w',
                q ∙ run,
                inr (
                  subst
                      (λ (d : Db).
                        0 < count_if (is_usable id (hash_of env s code)) d.totp_backup_codes)
                      same usable,
                  env.clock w1.step,
                  left
                      ∙ ap
                          (λ (d : Db). record d {
                            totp_backup_codes =
                                spent_codes (env.clock w1.step) id (hash_of env s code)
                                  d.totp_backup_codes;
                          })
                          same,
                ),
              )
        ]

    -- A call behind the second factor that succeeds: the user's second factor is enabled, the code
    -- is one of its secret that it takes, or else a backup code that was not used, and the call is
    -- the action after the code was recorded or spent.
    pub with_second_factor_ok :
        (w : World) (a : A)
        → (with_second_factor env s id code action w).0 ≡ ok a
        → (row : UserTotp) × (secret : Text) × Enabled id w row secret
          × (w' : World) × (with_second_factor env s id code action w ≡ action w')
          × (ByCode id code secret w.db w'.db ⊎ ByBackup id code w.db w'.db)
    unfolding with_second_factor
    with_second_factor_ok w a h =
        let (r, e, q) =
          find_or_ok (get_enabled_totp_by_user_id env s.platform s.totp_secrets id) totp_not_enabled
            (λ r. verify_totp_code env s r code >>= or_backup) w a h in
        let (row, enabled, user, db) = factor_row id w r e in
        let w1 = (get_enabled_totp_by_user_id env s.platform s.totp_secrets id w).1 in
        let is_user : r.user_id ≡ id =
          user ∙ ground (arith, find_if-test (is_enabled id) w.db.user_totp enabled.0) in
        let (w', run, passed) = verified_ok r w1 a is_user (ap (λ x. x.0) (sym q) ∙ h) in
        (
          row,
          r.secret,
          enabled,
          w',
          q ∙ run,
          subst (λ d. ByCode id code r.secret d w'.db ⊎ ByBackup id code d w'.db) db passed,
        )
