-- ===== src/Email/Processor/Claims.antt =====
-- Which mails ClaimPending (internal/database/email_outbox_store.go) takes, and for how long.
use go_spark.Base.{
  ℕ, ◌+◌, ◌≤◌, ◌<◌, ◌≡◌, ◌≢◌, refl, sym, ap, subst, inl, inr, List, [], ◌∷◌, Bool, true, false, All,
  All-map, All-and, Distinct, length, All-take, keep_if, keep_if-test, keep_if-All, update_if,
  update_if-All, order_by-All, map, Bool-cases, arith,
}
use go_spark.Schema.{EmailOutbox, Db}
use go_spark.Effect.{Env, World, ok, ◌>>=◌}
use go_spark.Queries.Outbox.{is_due, earlier, due_ids, member, claimed, claim_pending_emails}
use go_spark.Email.OutboxStore.{OutboxEmail, outbox_email, claim_pending}
use go_spark.Email.Processor.Limit.{keep_member-le, length-map, due_ids-le}

abbrev pub Ids : List EmailOutbox → Type 0
Ids = Distinct (λ (r : EmailOutbox). r.id)

module _ {A B : Type 0} (f : A → B) where
  pub All-mapped : (P : B → Type 0) (xs : List A) → All (λ x. P (f x)) xs → All P (map f xs)
  All-mapped P [] h = tt
  All-mapped P (x ∷ xs) h = (h.0, All-mapped P xs h.1)

-- Rows with one number are one row.
pub one_row_each :
    (rows : List EmailOutbox) → Ids rows → All (λ x. All (λ r. r.id ≡ x.id → r ≡ x) rows) rows
one_row_each [] d = tt
one_row_each (y ∷ ys) d = (
  (
    (λ _. refl),
    All-map (λ r. y.id ≢ r.id) (λ r. r.id ≡ y.id → r ≡ y) (λ r ne e. absurd (ne (sym e))) ys d.0,
  ),
  All-map (λ x. (y.id ≢ x.id) × All (λ r. r.id ≡ x.id → r ≡ x) ys)
      (λ x. All (λ r. r.id ≡ x.id → r ≡ x) (y ∷ ys)) (λ x (ne, rest). ((λ e. absurd (ne e)), rest))
      ys
      (All-and (λ x. y.id ≢ x.id) (λ x. All (λ r. r.id ≡ x.id → r ≡ x) ys) ys d.0
        (one_row_each ys d.1)),
)

not_member :
    (i : ℕ) (rows : List EmailOutbox)
    → All (λ r. r.id ≢ i) rows
    → member i (map (λ r. r.id) rows) ≡ false
unfolding member
not_member i [] h = refl
not_member i (r ∷ rows) h = ground (arith, h.0, not_member i rows h.1)

module _ (at limit : ℕ) (rows : List EmailOutbox) where
  abbrev pub chosen : EmailOutbox → Bool
  chosen r = member r.id (due_ids at limit rows)

  pub chosen-is_due :
      (x : EmailOutbox) → All (λ r. r.id ≡ x.id → r ≡ x) rows → chosen x ≡ true → is_due at x ≡ true
  unfolding due_ids
  chosen-is_due x one h = elim (Bool-cases (is_due at x)) [
    | inl e ↦ e
    | inr e ↦
        (let apart =
            All-map (λ r. (r.id ≡ x.id → r ≡ x) × (is_due at r ≡ true)) (λ r. r.id ≢ x.id)
              (λ r (same, due) i. cc (ap (λ y. is_due at y) (same i), due, e))
              (keep_if (is_due at) rows)
              (All-and (λ r. r.id ≡ x.id → r ≡ x) (λ r. is_due at r ≡ true)
                (keep_if (is_due at) rows)
                (keep_if-All (is_due at) (λ r. r.id ≡ x.id → r ≡ x) rows one)
                (keep_if-test (is_due at) rows)) in
          absurd (
            cc (
              not_member x.id _ (
                  All-take (λ r. r.id ≢ x.id) limit _
                    (order_by-All earlier (λ r. r.id ≢ x.id) _ apart)),
              h,
            )))
  ]

module _ (env : Env) (at ttl limit : ℕ) where
  pub claim_sets :
      (w : World) (ms : List OutboxEmail)
      → (claim_pending env at ttl limit w).0 ≡ ok ms
      → (ms
          ≡ map outbox_email (
              map
                (claimed at (at + ttl) (env.random w.step))
                (keep_if (chosen at limit w.db.email_outbox) w.db.email_outbox)))
        × ((claim_pending env at ttl limit w).1.db ≡ record w.db {
          email_outbox =
              update_if
                (chosen at limit w.db.email_outbox)
                (claimed at (at + ttl) (env.random w.step))
                w.db.email_outbox;
        })
  unfolding claim_pending ◌>>=◌ claim_pending_emails
  claim_sets w ms h = (ground (arith, h), ground (arith, h))

  -- With distinct row numbers, a claim that succeeds takes at most `limit` rows, each of them due:
  -- pending and its time come, or its claim run out. It puts those rows, and no other, under the
  -- token that it draws, and returns the mail of each of them, in the order of the table and under
  -- that token. Until the claim runs out none of them is due again.
  pub claim_pending_claims :
      (w : World) (ms : List OutboxEmail)
      → Ids w.db.email_outbox
      → (claim_pending env at ttl limit w).0 ≡ ok ms
      → (length ms ≤ limit)
        × (ms
            ≡ map outbox_email (
                map
                  (claimed at (at + ttl) (env.random w.step))
                  (keep_if (chosen at limit w.db.email_outbox) w.db.email_outbox)))
        × (length (keep_if (chosen at limit w.db.email_outbox) w.db.email_outbox) ≤ limit)
        × All
            (λ r. chosen at limit w.db.email_outbox r ≡ true → is_due at r ≡ true)
            w.db.email_outbox
        × ((claim_pending env at ttl limit w).1.db ≡ record w.db {
          email_outbox =
              update_if
                (chosen at limit w.db.email_outbox)
                (claimed at (at + ttl) (env.random w.step))
                w.db.email_outbox;
        })
        × All
            (λ r.
              chosen at limit w.db.email_outbox r ≡ true
              → (t : ℕ) → t < at + ttl
              → is_due t r ≡ false)
            (claim_pending env at ttl limit w).1.db.email_outbox
  claim_pending_claims w ms d h =
      let rows = w.db.email_outbox in
      let (taken, db) = claim_sets w ms h in
      let few : length (keep_if (chosen at limit rows) rows) ≤ limit =
        omega (arith, keep_member-le (due_ids at limit rows) rows d, due_ids-le at limit rows) in
      (
        subst (λ (x : List OutboxEmail). length x ≤ limit) (sym taken)
            (omega (
              arith,
              length-map outbox_email (
                  map (claimed at (at + ttl) (env.random w.step))
                    (keep_if (chosen at limit rows) rows)),
              length-map (claimed at (at + ttl) (env.random w.step))
                  (keep_if (chosen at limit rows) rows),
              few,
            )),
        taken,
        few,
        All-map (λ x. All (λ r. r.id ≡ x.id → r ≡ x) rows)
            (λ r. chosen at limit rows r ≡ true → is_due at r ≡ true)
            (λ x one. chosen-is_due at limit rows x one) rows (one_row_each rows d),
        db,
        subst
            (λ (x : Db).
              All (λ r. chosen at limit rows r ≡ true → (t : ℕ) → t < at + ttl → is_due t r ≡ false)
                x.email_outbox)
            (sym db)
            (update_if-All (chosen at limit rows) (λ _. Unit {0})
              (λ r. chosen at limit rows r ≡ true → (t : ℕ) → t < at + ttl → is_due t r ≡ false)
              (claimed at (at + ttl) (env.random w.step))
              (λ r _ hit _ t early. ground (arith, early))
              (λ r _ miss hit. absurd (ground (arith, miss, hit))) rows (every rows)),
      )
    where
      every : (rs : List EmailOutbox) → All (λ _. Unit {0}) rs
      every [] = tt
      every (r ∷ rs) = (tt, every rs)
