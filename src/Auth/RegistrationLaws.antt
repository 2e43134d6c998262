-- ===== src/Auth/RegistrationLaws.antt =====
-- What a registration does, on each of its outcomes.
use go_spark.Base.{
  ℕ, suc, ◌+◌, Text, ◌≡◌, refl, sym, ap, subst, ◌∙◌, true, Option, none, some, find_if, arith,
}
use go_spark.Schema.{User, Db}
use go_spark.Effect.{
  Env, World, Result, Action, pure, ok, err, ◌>>=◌, is_no_rows, tick, draw, recover,
}
use go_spark.Effect.Atomicity.{Atomic, atomic_rules}
use go_spark.Effect.Success.{bind_ok}
use go_spark.Email.Messages.{Message, new_account_confirmation_message}
use go_spark.Queries.Users.{by_email, get_user_by_email}
use go_spark.AuthStore.Tokens
use go_spark.AuthStore.Accounts
use go_spark.Auth.Service.{
  AuthService, hash_token, hash_password, generate_token, validate_password,
}
use go_spark.Auth.Addresses.{normalize_email, is_valid_email}
use go_spark.Auth.Accounts.{register, register_new, is_already_registered, created}
use go_spark.Auth.Atomicity.{register-Atomic}
use go_spark.Auth.Registration.{Stored, create_user_with_email_verification-Stored}

-- The store either creates the user, or finds the address taken and has changed nothing.
module _ (env : Env) (s : AuthService) (m : Action User) (whole : Atomic m) where
  abbrev attempt : World → Result (Option User) × World
  attempt w = recover is_already_registered (pure none) (m >>= created env s) w

  attempt-some :
      (w : World) (u : User) (r : Result User)
      → (m w).0 ≡ r
      → (attempt w).0 ≡ ok (some u)
      → (r ≡ ok u) × ((attempt w).1 ≡ (m w).1)
  unfolding ◌>>=◌
  attempt-some w u (ok v) e h = (ground (arith, e), ground (arith, e))
  attempt-some w u (err x) e h = absurd (ground (arith, e, h))

  attempt-none :
      (w : World) (r : Result User)
      → (m w).0 ≡ r
      → (attempt w).0 ≡ ok none
      → (attempt w).1.db ≡ w.db
  unfolding ◌>>=◌
  attempt-none w (ok v) e h = absurd (ground (arith, e, h))
  attempt-none w (err x) e h = ground (arith, e, whole.at w x e)

module _ (env : Env) (s : AuthService) where
  -- What a registration promises, by its result.
  abbrev pub Registered : Text → Text → World → Result (Option User) → Db → Type 0
  Registered email password w (ok (some u)) d' =
      let address = normalize_email s.platform email in
      (is_valid_email s.platform address ≡ true)
      × (validate_password s password ≡ ok tt)
      × ((message : Message) × (new_account_confirmation_message s.platform s.email_options address
              (env.random (suc (suc (suc w.step))))
            ≡ ok message)
          × Stored address (s.hasher.hash (env.random (suc w.step)) password)
              (hash_token s (env.random (suc (suc (suc w.step)))))
              (env.clock (suc (suc w.step)) + s.email_verification_token_duration) message
              (env.clock (suc (suc w.step))) w.db u d')
  Registered email password w (ok none) d' = d' ≡ w.db
  Registered email password w (err e) d' = d' ≡ w.db

  store : Text → Text → Text → ℕ → Message → ℕ → Action User
  store email hash token_hash expires message at =
      Tokens.create_user_with_email_verification env email hash token_hash expires message at

  store-Stored :
      (email hash token_hash : Text) (expires at : ℕ) (message : Message) (w : World) (u : User)
      → (store email hash token_hash expires message at w).0 ≡ ok u
      → Stored email hash token_hash expires message at w.db u
          (store email hash token_hash expires message at w).1.db
  unfolding store Tokens.create_user_with_email_verification draw
  store-Stored email hash token_hash expires at message w u h =
      let (handle, _, e) = bind_ok (draw env) _ w u h in
      subst (λ r. Stored email hash token_hash expires message at w.db u r.1.db) (sym e)
        (create_user_with_email_verification-Stored env email hash handle token_hash expires message
          at (tick w) u (sym (ap (λ r. r.0) e) ∙ h))

  store-Atomic :
      (email hash token_hash : Text) (expires at : ℕ) (message : Message)
      → Atomic (store email hash token_hash expires message at)
  unfolding store Tokens.create_user_with_email_verification
  store-Atomic email hash token_hash expires at message = search (atomic_rules) depth 12

  new_some :
      (address password : Text) (w : World) (u : User) (message : Result Message)
      → new_account_confirmation_message s.platform s.email_options address
          (env.random (suc (suc w.step)))
        ≡ message
      → (register_new env s address password w).0 ≡ ok (some u)
      → (m : Message) × (message ≡ ok m)
        × Stored address
            (s.hasher.hash (env.random w.step) password)
            (hash_token s (env.random (suc (suc w.step))))
            (env.clock (suc w.step) + s.email_verification_token_duration)
            m
            (env.clock (suc w.step))
            w.db
            u
            (register_new env s address password w).1.db
  unfolding register_new ◌>>=◌ store hash_password generate_token
  new_some address password w u (err x) q h = absurd (ground (arith, q, h))
  new_some address password w u (ok m) q h =
      let at = env.clock (suc w.step) in
      let hash = s.hasher.hash (env.random w.step) password in
      let token_hash = hash_token s (env.random (suc (suc w.step))) in
      let expires = at + s.email_verification_token_duration in
      let w3 : World = tick (tick (tick w)) in
      let e : register_new env s address password w
          ≡ attempt env s (store address hash token_hash expires m at)
              (store-Atomic address hash token_hash expires at m) w3 =
        ground (arith, q, h) in
      let (r, left) =
        attempt-some env s (store address hash token_hash expires m at)
          (store-Atomic address hash token_hash expires at m) w3 u _ refl
          (sym (ap (λ r. r.0) e) ∙ h) in
      (
        m,
        refl,
        subst (λ r. Stored address hash token_hash expires m at w.db u r.db)
            (sym (ap (λ r. r.1) e ∙ left))
            (store-Stored address hash token_hash expires at m w3 u r),
      )

  new_none :
      (address password : Text) (w : World) (message : Result Message)
      → new_account_confirmation_message s.platform s.email_options address
          (env.random (suc (suc w.step)))
        ≡ message
      → (register_new env s address password w).0 ≡ ok none
      → (register_new env s address password w).1.db ≡ w.db
  unfolding register_new ◌>>=◌ store hash_password generate_token
  new_none address password w (err x) q h = absurd (ground (arith, q, h))
  new_none address password w (ok m) q h =
      let at = env.clock (suc w.step) in
      let create =
        store address (s.hasher.hash (env.random w.step) password)
          (hash_token s (env.random (suc (suc w.step)))) (at + s.email_verification_token_duration)
          m at in
      let whole =
        store-Atomic address (s.hasher.hash (env.random w.step) password)
          (hash_token s (env.random (suc (suc w.step)))) (at + s.email_verification_token_duration)
          at m in
      let w3 : World = tick (tick (tick w)) in
      let e : register_new env s address password w ≡ attempt env s create whole w3 =
        ground (arith, q, h) in
      ap (λ r. r.1.db) e ∙ attempt-none env s create whole w3 _ refl (sym (ap (λ r. r.0) e) ∙ h)

  abbrev Route : Text → Text → World → Option User → Option User → Type 0
  Route email password w out none =
      register env s email password w
      ≡ register_new env s (normalize_email s.platform email) password (tick w)
  Route email password w out (some x) =
      (out ≡ none) × ((register env s email password w).1.db ≡ w.db)

  -- A registration that succeeds for an address that is free goes the whole way; for one that is
  -- taken it stops at the lookup.
  register_is :
      (email password : Text) (w : World) (out : Option User) (o : Option User)
      → find_if (by_email (normalize_email s.platform email)) w.db.users ≡ o
      → (register env s email password w).0 ≡ ok out
      → (is_valid_email s.platform (normalize_email s.platform email) ≡ true)
        × (validate_password s password ≡ ok tt)
        × Route email password w out o
  unfolding register ◌>>=◌ Accounts.get_user_by_email get_user_by_email is_no_rows
  register_is email password w out none q h =
      (ground (arith, q, h), ground (arith, q, h), ground (arith, q, h))
  register_is email password w out (some x) q h =
      (ground (arith, q, h), ground (arith, q, h), (ground (arith, q, h), ground (arith, q, h)))

  registered :
      (email password : Text) (w : World) (r : Result (Option User)) (o : Option User)
      → find_if (by_email (normalize_email s.platform email)) w.db.users ≡ o
      → (register env s email password w).0 ≡ r
      → Registered email password w r (register env s email password w).1.db
  registered email password w (err x) o q h = (register-Atomic env s email password).at w x h
  registered email password w (ok none) none q h =
      let (valid, long, e) = register_is email password w none none q h in
      ap (λ r. r.1.db) e ∙ new_none _ password (tick w) _ refl (sym (ap (λ r. r.0) e) ∙ h)
  registered email password w (ok (some u)) none q h =
      let (valid, long, e) = register_is email password w (some u) none q h in
      let (m, sent, all) = new_some _ password (tick w) u _ refl (sym (ap (λ r. r.0) e) ∙ h) in
      (
        valid,
        long,
        (
          m,
          sent,
          subst
              (λ r.
                Stored (normalize_email s.platform email)
                  (s.hasher.hash (env.random (suc w.step)) password)
                  (hash_token s (env.random (suc (suc (suc w.step)))))
                  (env.clock (suc (suc w.step)) + s.email_verification_token_duration) m
                  (env.clock (suc (suc w.step))) w.db u r.1.db)
              (sym e) all,
        ),
      )
  registered email password w (ok none) (some x) q h =
      (register_is email password w none (some x) q h).2.1
  registered email password w (ok (some u)) (some x) q h =
      absurd (cc ((register_is email password w (some u) (some x) q h).2.0))

  -- A registration stores a new, unverified user with a hash of the password, an unused
  -- verification token of that user under the hash of the token that is drawn, to expire the
  -- verification time after now, and one mail to be sent now, which is the confirmation message
  -- for the address and the drawn token; or it changes nothing: when it fails, and when it hides
  -- that the address is taken. It stores only for a valid address that nobody has and a password
  -- of a permitted length.
  pub register_outcomes :
      (email password : Text) (w : World)
      → Registered email password w
          (register env s email password w).0
          (register env s email password w).1.db
  register_outcomes email password w = registered email password w _ _ refl refl
