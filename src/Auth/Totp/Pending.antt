-- ===== src/Auth/Totp/Pending.antt =====
-- BeginTOTPSetup and GetTOTPSetupInfo of internal/auth/totp.go.
use go_spark.Base.{
  ℕ, suc, max_key, ◌≡◌, refl, sym, ap, subst, ◌∙◌, inl, inr, Text, Bool, true, false, Bool-cases,
  Option-cases, none, some, is_some, List, [], ◌∷◌, ◌++◌, length, find_if, update_if, arith,
  if◌then◌else◌,
}
use go_spark.Schema.{User, UserTotp, Db}
use go_spark.Effect.{
  Env, World, Action, Result, ok, err, ◌>>=◌, ◌>>◌, raise, pure, draw, exec, find_or,
  invalid_credentials, totp_already_enabled,
}
use go_spark.Effect.Invariants.{Keeps, keeps_rules, Maintains-of_Reads}
use go_spark.Queries.Reads.{reads}
use go_spark.Effect.Success.{bind_ok, exec_ok, find_or_ok}
use go_spark.Queries.Users.{by_id, user_exists, get_user_by_id}
use go_spark.Queries.Totp.{of_user}
use go_spark.Queries.Totp
use go_spark.SecretCipher.{encrypt, decrypt, decrypt-encrypt}
use go_spark.Totp.{build_uri}
use go_spark.AuthStore.Accounts
use go_spark.AuthStore.Totp.{TotpRecord, read_record, upsert_pending_totp, get_totp_by_user_id}
use go_spark.Auth.Service.{AuthService}
use go_spark.Auth.BackupCodes.{generate_totp_secret}
use go_spark.Auth.Totp.{start_setup, with_uri, by_user, begin_totp_setup, get_totp_setup_info}
use go_spark.Auth.Totp.Factor.{one_row_ok}

find_if-append_new :
    {A : Type 0} (p : A → Bool) (xs : List A) (y : A)
    → find_if p xs ≡ none
    → p y ≡ true
    → find_if p (xs ++ y ∷ []) ≡ some y
unfolding find_if
find_if-append_new p [] y n h = rw h refl
find_if-append_new p (x ∷ xs) y n h = ground (arith, find_if-append_new p xs y, n, h)

find_if-updated :
    {A : Type 0} (p : A → Bool) (f : A → A)
    → ((x : A) → p (f x) ≡ p x)
    → (xs : List A) (x : A) → find_if p xs ≡ some x
    → find_if p (update_if p f xs) ≡ some (f x)
unfolding find_if update_if
find_if-updated p f same [] x h = cc
find_if-updated p f same (y ∷ ys) x h = ground (arith, same y, h, find_if-updated p f same ys x)

abbrev new_row : ℕ → Text → ℕ → List UserTotp → UserTotp
new_row user secret at rows = record {
  id = suc (max_key (λ (t : UserTotp). t.id) rows);
  user_id = user;
  secret = secret;
  enabled_at = none;
  created_at = at;
  last_used_counter = none;
}

-- After an upsert the user's second factor is a pending one with the given secret.
upsert_finds :
    (id at : ℕ) (secret : Text) (d d' : Db)
    → Totp.upsert_pending_totp id secret at d ≡ ok (tt, d')
    → (row : UserTotp) × (find_if (of_user id) d'.user_totp ≡ some row)
      × (row.secret ≡ secret)
      × (row.enabled_at ≡ none)
      × (d'.users ≡ d.users)
unfolding Totp.upsert_pending_totp
upsert_finds id at secret d d' h = elim (Option-cases (find_if (of_user id) d.user_totp)) [
  | inr (t, e) ↦
      let left : d'.user_totp
          ≡ update_if (of_user id) (λ t. record t { secret = secret; enabled_at = none })
              d.user_totp =
        ground (arith, e, h) in
      (
        record t { secret = secret; enabled_at = none },
        ap (find_if (of_user id)) left
            ∙ find_if-updated (of_user id) (λ t. record t { secret = secret; enabled_at = none })
                (λ t. refl) d.user_totp t e,
        refl,
        refl,
        ground (arith, e, h),
      )
  | inl e ↦ elim (Bool-cases (user_exists id d.users)) [
    | inl here ↦
        let left : d'.user_totp ≡ d.user_totp ++ new_row id secret at d.user_totp ∷ [] =
          ground (arith, e, here, h) in
        (
          new_row id secret at d.user_totp,
          ap (find_if (of_user id)) left
              ∙ find_if-append_new (of_user id) d.user_totp (new_row id secret at d.user_totp) e
                  (ground arith),
          refl,
          refl,
          ground (arith, e, here, h),
        )
    | inr lost ↦ absurd (ground (arith, e, lost, h))
  ]
]

module _ (env : Env) (s : AuthService) where
  encrypt_reads :
      (secret : Text) (w : World) → (encrypt s.platform s.totp_secrets env secret w).1.db ≡ w.db
  unfolding encrypt ◌>>=◌
  encrypt_reads secret w = ground arith

  generate_reads : (w : World) → (generate_totp_secret env w).1.db ≡ w.db
  unfolding generate_totp_secret draw
  generate_reads w = refl

  -- A setup that starts returns the secret whose sealed form it stores, and the address of the user
  -- in the link.
  start_ok :
      (id : ℕ) (user : User) (w : World) (r : Text × Text)
      → (start_setup env s id user w).0 ≡ ok r
      → (row : UserTotp) × (w1 : World) × (find_if
            (of_user id)
            (start_setup env s id user w).1.db.user_totp
          ≡ some row)
        × (w1.step ≡ suc w.step)
        × ((encrypt s.platform s.totp_secrets env r.0 w1).0 ≡ ok row.secret)
        × (row.enabled_at ≡ none)
        × (r.1 ≡ build_uri s.platform s.totp_issuer user.email r.0)
        × ((start_setup env s id user w).1.db.users ≡ w.db.users)
  unfolding upsert_pending_totp pure generate_totp_secret draw
  start_ok id user w r h =
      let store : Text → Action (Unit {0}) = upsert_pending_totp env s.platform s.totp_secrets id in
      let (secret, e, q) =
        bind_ok (generate_totp_secret env)
          (λ secret. store secret >> pure (with_uri env s user secret)) w r h in
      let w1 = (generate_totp_secret env w).1 in
      let (_, e1, q1) =
        bind_ok (store secret) (λ _. pure (with_uri env s user secret)) w1 r
          (ap (λ x. x.0) (sym q) ∙ h) in
      let put : Text → Action (Unit {0}) =
        λ sealed. exec env (Totp.upsert_pending_totp id sealed) in
      let (sealed, e2, q2) = bind_ok (encrypt s.platform s.totp_secrets env secret) put w1 tt e1 in
      let w2 = (encrypt s.platform s.totp_secrets env secret w1).1 in
      let (d, e3, q3) =
        exec_ok env (Totp.upsert_pending_totp id sealed) w2 tt (ap (λ x. x.0) (sym q2) ∙ e1) in
      let (row, found, same, pending, users) =
        upsert_finds id (env.clock w2.step) sealed w2.db d e3 in
      let is_r : with_uri env s user secret ≡ r = ground (arith, q, q1, h) in
      let reached : (start_setup env s id user w).1.db ≡ d =
        ap (λ x. x.1.db) (q ∙ q1) ∙ ap (λ x. x.1.db) q2 ∙ ap (λ (w : World). w.db) q3 in
      (
        row,
        w1,
        ap (λ (d : Db). find_if (of_user id) d.user_totp) reached ∙ found,
        refl,
        subst (λ x. (encrypt s.platform s.totp_secrets env x.0 w1).0 ≡ ok row.secret) is_r
            (e2 ∙ ap ok (sym same)),
        pending,
        sym (ap (λ x. x.1) is_r) ∙ ap (λ x. build_uri s.platform s.totp_issuer user.email x.0) is_r,
        ap (λ (d : Db). d.users) reached
            ∙ users
            ∙ ap (λ (d : Db). d.users) (encrypt_reads secret w1)
            ∙ ap (λ (d : Db). d.users) (generate_reads w),
      )

  by_user_reads : (id : ℕ) (w : World) → (by_user env s id w).1.db ≡ w.db
  unfolding get_totp_by_user_id read_record
  by_user_reads id w =
      let k : Keeps (λ d. d ≡ w.db) (by_user env s id) =
        search (keeps_rules, Maintains-of_Reads, reads) depth 20 in
      k.at w refl

  by_user_step : (id : ℕ) (w : World) → (by_user env s id w).1.step ≡ suc w.step
  unfolding get_totp_by_user_id read_record ◌>>=◌
  by_user_step id w = ground arith

  abbrev unless_enabled : ℕ → User → TotpRecord → Action (Text × Text)
  unless_enabled id user existing =
      if is_some existing.enabled_at then raise totp_already_enabled else start_setup env s id user

  started :
      (id : ℕ) (user : User) (w : World) (r : Text × Text) (o : Result TotpRecord)
      → (by_user env s id w).0 ≡ o
      → (find_or (by_user env s id) (start_setup env s id user) (unless_enabled id user) w).0 ≡ ok r
      → find_or (by_user env s id) (start_setup env s id user) (unless_enabled id user) w
        ≡ start_setup env s id user (by_user env s id w).1
  unfolding find_or raise
  started id user w r (ok existing) e h = ground (arith, e, h)
  started id user w r (err x) e h = ground (arith, e, h)

  setup_ok :
      (id : ℕ) (w : World) (r : Text × Text)
      → (begin_totp_setup env s id w).0 ≡ ok r
      → (user : User) × (w1 : World) × (find_if (by_id id) w.db.users ≡ some user)
        × (w1.db ≡ w.db)
        × (w1.step ≡ suc (suc w.step))
        × (begin_totp_setup env s id w ≡ start_setup env s id user w1)
  unfolding begin_totp_setup Accounts.get_user_by_id get_user_by_id
  setup_ok id w r h =
      let f : User → Action (Text × Text) =
        λ user. find_or (by_user env s id) (start_setup env s id user) (unless_enabled id user) in
      let (user, e, q) = find_or_ok (Accounts.get_user_by_id env id) invalid_credentials f w r h in
      let (d, e1, q1) = exec_ok env (get_user_by_id id) w user e in
      let (found, same) = one_row_ok (find_if (by_id id) w.db.users) w.db d user e1 in
      let w1 = (Accounts.get_user_by_id env id w).1 in
      (
        user,
        (by_user env s id w1).1,
        found,
        by_user_reads id w1 ∙ ap (λ (w : World). w.db) q1 ∙ same,
        by_user_step id w1 ∙ ap (λ (w : World). suc w.step) q1,
        q ∙ started id user w1 r _ refl (ap (λ x. x.0) (sym q) ∙ h),
      )

  info_of :
      (id : ℕ) (user : User) (row : UserTotp) (secret : Text) (w : World)
      → ((n : ℕ) → env.fails n ≡ false)
      → find_if (by_id id) w.db.users ≡ some user
      → find_if (of_user id) w.db.user_totp ≡ some row
      → row.enabled_at ≡ none
      → decrypt s.platform s.totp_secrets row.secret ≡ ok secret
      → (get_totp_setup_info env s id w).0 ≡ ok (with_uri env s user secret)
  unfolding get_totp_setup_info find_or ◌>>=◌ Accounts.get_user_by_id get_user_by_id
      get_totp_by_user_id Totp.get_totp_by_user_id read_record raise
  info_of id user row secret w fine found pending none_yet opened =
      ground (arith, found, pending, none_yet, opened, fine w.step, fine (suc w.step))

  -- Where the cipher opens what it sealed, the nonce that is drawn has the cipher's size, and no
  -- effect fails, a setup that was begun can be read back: as long as the tables of users and of second factors are as it left them, the same secret
  -- and the same link are shown again.
  pub begin_then_info :
      ((t : Text) → s.base64_std_decode (s.base64_std_encode t) ≡ some t)
      → ((nonce t : Text) → s.totp_secrets.open_sealed nonce (s.totp_secrets.seal nonce t) ≡ some t)
      → ((n : ℕ) → env.fails n ≡ false)
      → (id : ℕ) (w : World) (r : Text × Text)
      → length (env.random (suc (suc (suc w.step)))) ≡ s.totp_secrets.nonce_size
      → (begin_totp_setup env s id w).0 ≡ ok r
      → (later : World) → later.db.users ≡ (begin_totp_setup env s id w).1.db.users
      → later.db.user_totp ≡ (begin_totp_setup env s id w).1.db.user_totp
      → (get_totp_setup_info env s id later).0 ≡ ok r
  begin_then_info decoded opens fine id w r size h later users totps =
      let (user, w1, found, same, steps, run) = setup_ok id w r h in
      let (row, w2, pending, next, sealed, none_yet, uri, kept) =
        start_ok id user w1 r (ap (λ x. x.0) (sym run) ∙ h) in
      let opened =
        decrypt-encrypt s.platform s.totp_secrets decoded opens env r.0 row.secret w2
          (ap (λ n. length (env.random n)) (next ∙ ap (λ n. suc n) steps) ∙ size) sealed in
      info_of id user row r.0 later fine
        (ap (find_if (by_id id))
            (users ∙ ap (λ x. x.1.db.users) run ∙ kept ∙ ap (λ (d : Db). d.users) same)
          ∙ found)
        (ap (find_if (of_user id)) (totps ∙ ap (λ x. x.1.db.user_totp) run) ∙ pending) none_yet
        opened
      ∙ ap (λ u. ok (r.0, u)) (sym uri)
