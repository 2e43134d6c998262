-- ===== src/Auth/AddressChange.antt =====
-- What the confirmation of a new address does.
use go_spark.Base.{
  ℕ, suc, Text, trim_space, is_empty, ◌≡◌, refl, sym, ap, subst, ◌∙◌, inl, inr, Bool, true, false,
  List, [], ◌∷◌, ◌++◌, if◌then◌else◌, Option, none, some, find_if, update_if, delete_if, Bool-cases,
  arith,
}
use go_spark.Schema.{User, EmailChangeToken, EmailOutbox, Db}
use go_spark.Effect.{
  Env, World, Result, pure, exec, ok, err, ◌>>=◌, is_no_rows, tick, invalid_email_change_token,
}
use go_spark.Effect.Success.{bind_ok, rename_ok, with_tx_ok, exec_bind_ok, rename_bind_ok}
use go_spark.Queries.Users.{by_id, with_email, email_taken, get_user_by_id, update_user_email}
use go_spark.Queries.Sessions.{owned_by, delete_sessions_by_user_id}
use go_spark.Queries.Tokens.{is_valid, consumed_change, consume_email_change_token}
use go_spark.Queries.Outbox.{enqueue_email, new_email}
use go_spark.AuthStore.Tokens
use go_spark.Email.OutboxStore.{Queued}
use go_spark.Email.Messages.{Message, new_email_change_notice_message}
use go_spark.Auth.Service.{AuthService, hash_token}
use go_spark.Auth.EmailChange.{confirm_email_change}

abbrev pub is_valid_change : Text → ℕ → EmailChangeToken → Bool
is_valid_change hash at t = is_valid hash at t.token

-- The outbox after a confirmation: the notice to the old address more, to be sent from then on, if
-- notices are sent.
abbrev Noticed : AuthService → User → ℕ → List EmailOutbox → List EmailOutbox → Type 0
Noticed s old at before after =
    if s.email_change_notice_enabled
    then ((row : EmailOutbox) × (m : Message) × (new_email_change_notice_message s.platform
            s.email_options old.email
          ≡ ok m)
        × Queued m at row
        × (after ≡ before ++ row ∷ []))
    else (after ≡ before)

-- The database in which a user has moved to a new address and has no session.
abbrev moved_db : ℕ → Text → ℕ → List EmailOutbox → Db → Db
moved_db id new_email at outbox d = record d {
  users = update_if (by_id id) (with_email new_email at) d.users;
  sessions = delete_if (owned_by id) d.sessions;
  email_outbox = outbox;
}

-- The database with an email change token consumed.
abbrev spent_change_db : Text → ℕ → Db → Db
spent_change_db hash at d = record d {
  email_change_tokens =
      update_if (is_valid_change hash at) (consumed_change at) d.email_change_tokens;
}

module _ (env : Env) (s : AuthService) (at : ℕ) where
  abbrev noticed : User → World → Result (Unit {0}) × World
  noticed old w =
      Tokens.send_notice env s.platform s.email_options s.email_change_notice_enabled old.email at w

  send_notice-Noticed :
      (old : User) (w : World) (b : Bool) (m : Result Message)
      → s.email_change_notice_enabled ≡ b
      → new_email_change_notice_message s.platform s.email_options old.email ≡ m
      → (noticed old w).0 ≡ ok tt
      → ((noticed old w).1.db ≡ record w.db { email_outbox = (noticed old w).1.db.email_outbox })
        × Noticed s old at w.db.email_outbox (noticed old w).1.db.email_outbox
  unfolding ◌>>=◌ enqueue_email
  send_notice-Noticed old w false m n k h = rw n (refl, refl)
  send_notice-Noticed old w true (err x) n k h = absurd (ground (arith, n, k))
  send_notice-Noticed old w true (ok m) n k h = (
    ground (arith, n, k),
    rw n (
      new_email m at (env.clock w.step) w.db.email_outbox,
      m,
      k,
      (refl, refl, refl, refl, refl, refl, refl),
      ground (arith, n, k),
    ),
  )

  module _ (id : ℕ) (address : Text) where
    abbrev applied : World → Result User × World
    applied =
        Tokens.apply_email_change env s.platform s.email_options s.email_change_notice_enabled id
          address at

    found :
        (o : Option User) (t : ℕ) (d d' : Db) (u : User)
        → find_if (by_id id) d.users ≡ o
        → get_user_by_id id t d ≡ ok (u, d')
        → (o ≡ some u) × (d' ≡ d)
    unfolding get_user_by_id
    found none t d d' u q h = absurd (ground (arith, q))
    found (some x) t d d' u q h = (ground (arith, q), ground (arith, q))

    updated :
        (t : ℕ) (d d' : Db) (old u : User)
        → find_if (by_id id) d.users ≡ some old
        → update_user_email address at id t d ≡ ok (u, d')
        → (u ≡ with_email address at old)
          × (email_taken address id d.users ≡ false)
          × (d' ≡ record d { users = update_if (by_id id) (with_email address at) d.users })
    unfolding update_user_email
    updated t d d' old u q h = (ground (arith, q), ground (arith, q), ground (arith, q))

    -- What a confirmation returns and leaves, for the user as it was.
    abbrev Moved : User → Db → User → Db → Type 0
    Moved old d user d' =
        (find_if (by_id id) d.users ≡ some old)
        × (user ≡ with_email address at old)
        × (email_taken address id d.users ≡ false)
        × (d' ≡ moved_db id address at d'.email_outbox d)
        × Noticed s old at d.email_outbox d'.email_outbox

    moved :
        (w w3 : World) (t t' : ℕ) (old u : User) (d2 d3 : Db)
        → find_if (by_id id) w.db.users ≡ some old
        → update_user_email address at id t w.db ≡ ok (u, d2)
        → delete_sessions_by_user_id id t' d2 ≡ ok (tt, d3)
        → w3.db ≡ d3
        → (noticed old w3).0 ≡ ok tt
        → Moved old w.db u (noticed old w3).1.db
    unfolding delete_sessions_by_user_id
    moved w w3 t t' old u d2 d3 q1 q2 q3 same h =
        let (eu, free, e2) = updated t w.db d2 old u q1 q2 in
        let e3 : d3 ≡ record d2 { sessions = delete_if (owned_by id) d2.sessions } = cc q3 in
        let (kept, sent) = send_notice-Noticed old w3 _ _ refl refl h in
        let base =
          same
          ∙ e3
          ∙ ap (λ (d : Db). record d { sessions = delete_if (owned_by id) d.sessions }) e2 in
        let after = (noticed old w3).1.db.email_outbox in
        (
          q1,
          eu,
          free,
          kept ∙ ap (λ (d : Db). record d { email_outbox = after }) base,
          subst (λ b. Noticed s old at b after) (ap (λ (d : Db). d.email_outbox) base) sent,
        )

    apply_moves :
        (w : World) (user : User)
        → (applied w).0 ≡ ok user
        → (old : User) × Moved old w.db user (applied w).1.db
    unfolding Tokens.apply_email_change pure
    apply_moves w user h =
        let (old, d1, q1, e1) = exec_bind_ok env (get_user_by_id id) _ w user h in
        let (u, d2, q2, e2) =
          rename_bind_ok env (update_user_email address at id) _ _ user _ _
            (sym (ap (λ r. r.0) e1) ∙ h) in
        let (x, d3, q3, e3) =
          exec_bind_ok env (delete_sessions_by_user_id id) _ _ user
            (sym (ap (λ r. r.0) (e1 ∙ e2)) ∙ h) in
        let (y, r4, e4) = bind_ok _ _ _ user (sym (ap (λ r. r.0) (e1 ∙ e2 ∙ e3)) ∙ h) in
        let (there, same) = found _ (env.clock w.step) w.db d1 old refl q1 in
        let e = e1 ∙ e2 ∙ e3 ∙ e4 in
        let is_user : ok u ≡ ok user = sym (ap (λ r. r.0) e) ∙ h in
        let w3 : World = record { db = d3; step = suc (suc (suc w.step)) } in
        (
          old,
          subst (λ v. Moved old w.db v (applied w).1.db) (cc is_user)
              (subst (λ r. Moved old w.db u r) (sym (ap (λ r. r.1.db) e))
                (moved w w3 _ _ old u d2 d3 there
                  (subst
                    (λ d. update_user_email address at id (env.clock (suc w.step)) d ≡ ok (u, d2))
                    same q2)
                  q3 refl r4)),
        )

module _ (env : Env) (s : AuthService) where
  consumed_row :
      (hash : Text) (at t : ℕ) (d d' : Db) (r : EmailChangeToken) (o : Option EmailChangeToken)
      → find_if (is_valid_change hash at) d.email_change_tokens ≡ o
      → consume_email_change_token at hash t d ≡ ok (r, d')
      → (row : EmailChangeToken) × (o ≡ some row)
        × (r ≡ consumed_change at row)
        × (d' ≡ spent_change_db hash at d)
  unfolding consume_email_change_token
  consumed_row hash at t d d' r none q h = absurd (ground (arith, q))
  consumed_row hash at t d d' r (some row) q h = (row, refl, ground (arith, q), ground (arith, q))

  abbrev body : Text → ℕ → World → Result User × World
  body hash at w =
      (exec env (consume_email_change_token at hash) >>= λ t.
      Tokens.apply_email_change env s.platform s.email_options s.email_change_notice_enabled
        t.user_id t.new_email at)
        w

  -- What a confirmation returns and leaves, with the row of its token and the user as they were.
  abbrev pub Confirmed : Text → ℕ → Db → User → Db → EmailChangeToken → User → Type 0
  Confirmed hash at d user d' row old =
      (find_if (is_valid_change hash at) d.email_change_tokens ≡ some row)
      × Moved env s at row.user_id row.new_email old (spent_change_db hash at d) user d'

  confirm_body :
      (hash : Text) (at : ℕ) (w : World) (user : User)
      → (body hash at w).0 ≡ ok user
      → (row : EmailChangeToken) × (old : User) × Confirmed hash at w.db user
          (body hash at w).1.db
          row
          old
  confirm_body hash at w user h =
      let (r, d1, q1, e1) = exec_bind_ok env (consume_email_change_token at hash) _ w user h in
      let (row, there, is_row, spent) =
        consumed_row hash at (env.clock w.step) w.db d1 r _ refl q1 in
      let w1 : World = record { db = d1; step = suc w.step } in
      let (old, m) =
        apply_moves env s at r.user_id r.new_email w1 user (sym (ap (λ r. r.0) e1) ∙ h) in
      let m' =
        subst (λ x. Moved env s at x.user_id x.new_email old d1 user (body hash at w).1.db) is_row
          (subst (λ x. Moved env s at r.user_id r.new_email old d1 user x.1.db) (sym e1) m) in
      (
        row,
        old,
        (
          there,
          subst (λ x. Moved env s at row.user_id row.new_email old x user (body hash at w).1.db)
              spent m',
        ),
      )

  -- A confirmation that succeeds used a token whose hash is stored, unconsumed and not expired,
  -- and consumes it. The token's user gets the new address, which no other user has, as a verified
  -- one; every session of the user ends and no other; the notice for the old address is put
  -- in the outbox, to be sent now, if the service sends notices; and nothing else changes.
  pub confirm_email_change_moves :
      (token : Text) (w : World) (user : User)
      → (confirm_email_change env s token w).0 ≡ ok user
      → (row : EmailChangeToken) × (old : User) × Confirmed
          (hash_token s (trim_space token))
          (env.clock w.step)
          w.db
          user
          (confirm_email_change env s token w).1.db
          row
          old
  unfolding confirm_email_change Tokens.confirm_email_change ◌>>=◌
  confirm_email_change_moves token w user h = elim (Bool-cases (is_empty (trim_space token))) [
    | inl e ↦ absurd (cc (rw e at h))
    | inr e ↦
        (let hash = hash_token s (trim_space token) in
          let at = env.clock w.step in
          let (b, e3) =
            rename_ok is_no_rows invalid_email_change_token
              (Tokens.confirm_email_change env s.platform s.email_options
                s.email_change_notice_enabled hash at)
              (tick w) user (rw e at h) in
          let (c, e4) = with_tx_ok env (λ w. body hash at w) (tick w) user b in
          let (row, old, m) = confirm_body hash at (tick (tick w)) user c in
          (
            row,
            old,
            rw e (
                subst (λ d. Confirmed hash at w.db user d row old)
                  (ap (λ (x : World). x.db) (sym (e3 ∙ e4))) m),
          ))
  ]
