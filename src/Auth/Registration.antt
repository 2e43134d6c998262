-- ===== src/Auth/Registration.antt =====
-- What a registration does, on each of its outcomes.
use go_spark.Base.{
  ℕ, Text, ◌≡◌, refl, sym, ap, subst, ◌∙◌, false, [], ◌∷◌, ◌++◌, none, is_some, not_some, find_if,
  arith,
}
use go_spark.Schema.{User, Token, EmailOutbox, Db}
use go_spark.Effect.{Env, World, Action, pure, exec, ok, ◌>>=◌, ◌>>◌, tick, with_tx}
use go_spark.Effect.Success.{exec_bind_ok, rename_bind_ok, with_tx_ok}
use go_spark.Email.Messages.{Message}
use go_spark.Queries.Users.{by_email, create_user, new_user}
use go_spark.Queries.Tokens.{create_email_verification_token}
use go_spark.Queries.Outbox.{enqueue_email, new_email}
use go_spark.Email.OutboxStore.{Queued}
use go_spark.AuthStore.Accounts.{insert_user}

-- What the transaction of a registration stores.
abbrev pub Stored : Text → Text → Text → ℕ → Message → ℕ → Db → User → Db → Type 0
Stored email hash token_hash expires message available d u d' =
    (find_if (by_email email) d.users ≡ none)
    × (u.email ≡ email)
    × (u.password_hash ≡ hash)
    × (u.email_verified_at ≡ none)
    × ((t : Token) × (m : EmailOutbox) × (t.user_id ≡ u.id)
        × (t.token_hash ≡ token_hash)
        × (t.expires_at ≡ expires)
        × (t.consumed_at ≡ none)
        × Queued message available m
        × (d' ≡ record d {
          users = d.users ++ u ∷ [];
          email_verification_tokens = d.email_verification_tokens ++ t ∷ [];
          email_outbox = d.email_outbox ++ m ∷ [];
        }))

module _ (env : Env) (email hash handle token_hash : Text) (expires : ℕ) (message : Message)
    (available : ℕ) where
  user_row :
      (t : ℕ) (d d' : Db) (u : User)
      → create_user email hash handle t d ≡ ok (u, d')
      → (is_some (find_if (by_email email) d.users) ≡ false)
        × (u ≡ new_user email hash handle t d.users)
        × (d' ≡ record d { users = d.users ++ u ∷ [] })
  unfolding create_user
  user_row t d d' u h = (ground (arith, h), ground (arith, h), ground (arith, h))

  token_row :
      (id t : ℕ) (d d' : Db) (r : Token)
      → create_email_verification_token id token_hash expires t d ≡ ok (r, d')
      → (r.user_id ≡ id)
        × (r.token_hash ≡ token_hash)
        × (r.expires_at ≡ expires)
        × (r.consumed_at ≡ none)
        × (d' ≡ record d { email_verification_tokens = d.email_verification_tokens ++ r ∷ [] })
  unfolding create_email_verification_token
  token_row id t d d' r h = (
    ground (arith, h),
    ground (arith, h),
    ground (arith, h),
    ground (arith, h),
    ground (arith, h),
  )

  mail_row :
      (t : ℕ) (d d' : Db) (m : EmailOutbox)
      → enqueue_email message available t d ≡ ok (m, d')
      → Queued message available m × (d' ≡ record d { email_outbox = d.email_outbox ++ m ∷ [] })
  unfolding enqueue_email
  mail_row t d d' m h =
      let row : m ≡ new_email message available t d.email_outbox = ground (arith, h) in
      (
        subst (Queued message available) (sym row) (refl, refl, refl, refl, refl, refl, refl),
        ground (arith, h),
      )

  abbrev body : Action User
  body = do
    user ← insert_user env email hash handle
    exec env (create_email_verification_token user.id token_hash expires)
    exec env (enqueue_email message available)
    pure user

  stored :
      (t1 t2 t3 : ℕ) (d d1 d2 d3 : Db) (v : User) (t : Token) (m : EmailOutbox)
      → create_user email hash handle t1 d ≡ ok (v, d1)
      → create_email_verification_token v.id token_hash expires t2 d1 ≡ ok (t, d2)
      → enqueue_email message available t3 d2 ≡ ok (m, d3)
      → Stored email hash token_hash expires message available d v d3
  stored t1 t2 t3 d d1 d2 d3 v t m q1 q2 q3 =
      let (free, row, db1) = user_row t1 d d1 v q1 in
      let (owner, hashed, expiry, unused, db2) = token_row v.id t2 d1 d2 t q2 in
      let (queued, db3) = mail_row t3 d2 d3 m q3 in
      (
        not_some _ free,
        ap (λ (x : User). x.email) row,
        ap (λ (x : User). x.password_hash) row,
        ap (λ (x : User). x.email_verified_at) row,
        (
          t,
          m,
          owner,
          hashed,
          expiry,
          unused,
          queued,
          db3
              ∙ ap (λ (x : Db). record x { email_outbox = x.email_outbox ++ m ∷ [] })
                  (db2
                    ∙ ap
                        (λ (x : Db). record x {
                          email_verification_tokens = x.email_verification_tokens ++ t ∷ [];
                        })
                        db1),
        ),
      )

  body-Stored :
      (w : World) (u : User)
      → (body w).0 ≡ ok u
      → Stored email hash token_hash expires message available w.db u (body w).1.db
  unfolding pure
  body-Stored w u h =
      let (v, d1, q1, e1) = rename_bind_ok env (create_user email hash handle) _ w u _ _ h in
      let (t, d2, q2, e2) =
        exec_bind_ok env (create_email_verification_token v.id token_hash expires) _ _ u
          (sym (ap (λ r. r.0) e1) ∙ h) in
      let (m, d3, q3, e3) =
        exec_bind_ok env (enqueue_email message available) _ _ u
          (sym (ap (λ r. r.0) (e1 ∙ e2)) ∙ h) in
      let e = e1 ∙ e2 ∙ e3 in
      let is_user : ok v ≡ ok u = sym (ap (λ r. r.0) e) ∙ h in
      subst (λ x. Stored email hash token_hash expires message available w.db x (body w).1.db)
        (cc is_user)
        (subst (λ x. Stored email hash token_hash expires message available w.db v x)
          (sym (ap (λ r. r.1.db) e)) (stored _ _ _ w.db d1 d2 d3 v t m q1 q2 q3))

  pub create_user_with_email_verification-Stored :
      (w : World) (u : User)
      → (with_tx env body w).0 ≡ ok u
      → Stored email hash token_hash expires message available w.db u (with_tx env body w).1.db
  create_user_with_email_verification-Stored w u h =
      let (b, e) = with_tx_ok env body w u h in
      subst (λ (x : World). Stored email hash token_hash expires message available w.db u x.db)
        (sym e) (body-Stored (tick w) u b)
