-- ===== src/Auth/Totp/Codes.antt =====
-- What the calls that store backup codes leave: EnableTOTPWithBackupCodes and ReplaceBackupCodes of
-- internal/auth/totp_store.go.
use go_spark.Base.{
  ℕ, zero, suc, ◌≡◌, refl, sym, ap, subst, ◌∙◌, inl, inr, Text, text_eq, true, Bool-cases, none,
  is_some, List, [], ◌∷◌, ◌++◌, map, length, find_if, delete_if, keep_if, keep_if-append,
  keep_if_every, All, arith, max_key,
}
use mathlib.Core.List.{append_assoc, append-nil}
use go_spark.Schema.{TotpBackupCode, Db}
use go_spark.Effect.{Env, World, Action, ok, ◌>>=◌, pure, tick, draw}
use go_spark.Effect.Success.{bind_ok, exec_bind_ok}
use go_spark.Queries.Users.{user_exists}
use go_spark.Queries.Totp.{code_of_user, is_unused}
use go_spark.Queries.Totp
use go_spark.Platform.{Platform}
use go_spark.AuthStore.Totp.{create_codes}
use go_spark.Auth.BackupCodes.{
  with_code, generate_backup_codes, hash_backup_code, format_backup_code,
}

abbrev new_code : ℕ → Text → ℕ → List TotpBackupCode → TotpBackupCode
new_code user hash at rows = record {
  id = suc (max_key (λ (c : TotpBackupCode). c.id) rows);
  user_id = user;
  code_hash = hash;
  used_at = none;
  created_at = at;
}

-- Unused backup codes of the user.
abbrev pub Unused : ℕ → List TotpBackupCode → Type 0
Unused user = All (λ c. is_unused user c ≡ true)

abbrev pub hashes_of : List TotpBackupCode → List Text
hashes_of = map (λ (c : TotpBackupCode). c.code_hash)

create_ok :
    (user : ℕ) (hash : Text) (at : ℕ) (d d' : Db)
    → Totp.create_totp_backup_code user hash at d ≡ ok (tt, d')
    → d' ≡ record d {
      totp_backup_codes = d.totp_backup_codes ++ new_code user hash at d.totp_backup_codes ∷ [];
    }
unfolding Totp.create_totp_backup_code
create_ok user hash at d d' h =
    elim (Bool-cases (is_some (find_if (λ c. text_eq c.code_hash hash) d.totp_backup_codes))) [
      | inl taken ↦ absurd (ground (arith, taken, h))
      | inr fresh ↦ elim (Bool-cases (user_exists user d.users)) [
        | inl here ↦ ground (arith, fresh, here, h)
        | inr lost ↦ absurd (ground (arith, fresh, lost, h))
      ]
    ]

module _ (env : Env) where
  -- The loop appends one unused code for each hash.
  pub create_codes_ok :
      (user : ℕ) (hashes : List Text) (w : World)
      → (create_codes env user hashes w).0 ≡ ok tt
      → (rows : List TotpBackupCode) × Unused user rows
        × (hashes_of rows ≡ hashes)
        × ((create_codes env user hashes w).1.db
            ≡ record w.db { totp_backup_codes = w.db.totp_backup_codes ++ rows })
  unfolding create_codes pure
  create_codes_ok user [] w h = (
    [],
    tt,
    refl,
    ap (λ l. record w.db { totp_backup_codes = l }) (sym (append-nil w.db.totp_backup_codes)),
  )
  create_codes_ok user (hash ∷ hashes) w h =
      let (u, d, q, e) =
        exec_bind_ok env (Totp.create_totp_backup_code user hash)
          (λ _. create_codes env user hashes) w tt h in
      let w' = record (tick w) { db = d } in
      let (rows, unused, same, left) = create_codes_ok user hashes w' (ap (λ r. r.0) (sym e) ∙ h) in
      let row = new_code user hash (env.clock w.step) w.db.totp_backup_codes in
      (
        row ∷ rows,
        (ground arith, unused),
        ap (λ l. hash ∷ l) same,
        ap (λ r. r.1.db) e
            ∙ left
            ∙ ap (λ (d : Db). record d { totp_backup_codes = d.totp_backup_codes ++ rows })
                (create_ok user hash (env.clock w.step) w.db d q)
            ∙ ap (λ l. record w.db { totp_backup_codes = l })
                (append_assoc w.db.totp_backup_codes (row ∷ []) rows),
      )

  -- The codes that are shown and those that are stored belong together.
  pub generate_ok :
      (p : Platform) (n : ℕ) (key : Text) (w : World) (r : List Text × List Text)
      → (generate_backup_codes p env n key w).0 ≡ ok r
      → (r.1 ≡ map (λ code. hash_backup_code p code key) r.0)
        × (length r.0 ≡ n)
        × ((generate_backup_codes p env n key w).1.db ≡ w.db)
  unfolding generate_backup_codes pure draw
  generate_ok p zero key w r h =
      let same : ([], []) ≡ r = ground (arith, h) in
      (
        subst (λ r. r.1 ≡ map (λ code. hash_backup_code p code key) r.0) same refl,
        ground (arith, same),
        refl,
      )
  generate_ok p (suc n) key w r h =
      let rest = generate_backup_codes p env n key in
      let shown : Text → Action (List Text × List Text) =
        λ drawn. rest >>= λ rest. pure (with_code p key (format_backup_code p drawn) rest) in
      let (drawn, e, q) = bind_ok (draw env) shown w r h in
      let w' = (draw env w).1 in
      let (inner, e', q') =
        bind_ok rest (λ rest. pure (with_code p key (format_backup_code p drawn) rest)) w' r
          (ap (λ x. x.0) (sym q) ∙ h) in
      let (hashes, size, left) = generate_ok p n key w' inner e' in
      let same : with_code p key (format_backup_code p drawn) inner ≡ r =
        ground (arith, q, q', h) in
      (
        subst (λ r. r.1 ≡ map (λ code. hash_backup_code p code key) r.0) same
            (ap (λ l. hash_backup_code p (format_backup_code p drawn) key ∷ l) hashes),
        subst (λ r. length r.0 ≡ suc n) same (ap suc size),
        ap (λ x. x.1.db) (q ∙ q') ∙ left,
      )

-- The codes of the user are replaced by unused ones with the given hashes; those of others stay.
abbrev pub replaced : ℕ → List TotpBackupCode → List TotpBackupCode → List TotpBackupCode
replaced user rows old = delete_if (code_of_user user) old ++ rows

none_left :
    (user : ℕ) (old : List TotpBackupCode)
    → keep_if (is_unused user) (delete_if (code_of_user user) old) ≡ []
unfolding keep_if delete_if
none_left user [] = refl
none_left user (c ∷ old) = ground (arith, none_left user old)

-- Then the unused codes of the user are those, in order.
pub keep_if-replaced :
    (user : ℕ) (rows old : List TotpBackupCode)
    → Unused user rows
    → keep_if (is_unused user) (replaced user rows old) ≡ rows
keep_if-replaced user rows old unused =
    keep_if-append (is_unused user) (delete_if (code_of_user user) old) rows
    ∙ ap (λ l. l ++ keep_if (is_unused user) rows) (none_left user old)
    ∙ keep_if_every (is_unused user) rows unused
