-- ===== src/Email/Processor/Once.antt =====
-- A mail that was delivered, and the claims of later cycles (internal/email/processor.go).
use go_spark.Base.{
  ℕ, ◌≡◌, ◌≢◌, sym, subst, ◌∙◌, ◌⊎◌, List, [], ◌∷◌, true, false, Option, some, ◌==◌, All, All-map,
  All-and, find_if, find_if-All, keep_if, keep_if-All, keep_if-test, ◌+◌, arith,
}
use go_spark.Schema.{EmailOutbox}
use go_spark.Effect.{Env, World, ok}
use go_spark.Queries.Outbox.{is_due, claimed}
use go_spark.Email.OutboxStore.{OutboxEmail, outbox_email, claim_pending}
use go_spark.Email.Processor.{Processor, Outcome, deliver}
use go_spark.Email.Processor
use go_spark.Email.Processor.Claims.{
  Ids, chosen, chosen-is_due, claim_sets, one_row_each, All-mapped,
}
use go_spark.Email.Processor.Delivery.{delivered_away}

abbrev row_of : ℕ → List EmailOutbox → Option EmailOutbox
row_of i rows = find_if (λ r. r.id == i) rows

-- With distinct numbers, the row of a number is the one that is found by it.
row_of-found :
    (i : ℕ) (rows : List EmailOutbox) → Ids rows → All (λ r. r.id ≡ i → row_of i rows ≡ some r) rows
unfolding find_if
row_of-found i [] d = tt
row_of-found i (x ∷ xs) d = (
  (λ e. ground (arith, e)),
  All-map (λ r. (x.id ≢ r.id) × (r.id ≡ i → row_of i xs ≡ some r))
      (λ r. r.id ≡ i → row_of i (x ∷ xs) ≡ some r)
      (λ r (ne, there) e. ground (arith, ne, there e, e)) xs
      (All-and (λ r. x.id ≢ r.id) (λ r. r.id ≡ i → row_of i xs ≡ some r) xs d.0
        (row_of-found i xs d.1)),
)

abbrev Away : ℕ → EmailOutbox → Type 0
Away i r = r.id ≡ i → (t : ℕ) → is_due t r ≡ false

-- A row that is never due is not due in another table that has the same row.
Away-row_of :
    (i : ℕ) (rows rows' : List EmailOutbox)
    → Ids rows'
    → row_of i rows' ≡ row_of i rows
    → All (Away i) rows
    → All (Away i) rows'
Away-row_of i rows rows' d same away =
    All-map (λ r. r.id ≡ i → row_of i rows' ≡ some r) (Away i)
      (λ r found e t. find_if-All (λ x. x.id == i) (Away i) rows away (sym same ∙ found e) e t)
      rows' (row_of-found i rows' d)

module _ (env : Env) (at ttl limit : ℕ) where
  claim_leaves :
      (i : ℕ) (w : World) (ms : List OutboxEmail)
      → Ids w.db.email_outbox
      → All (Away i) w.db.email_outbox
      → (claim_pending env at ttl limit w).0 ≡ ok ms
      → All (λ n. n.id ≢ i) ms
  claim_leaves i w ms d away h =
      let rows = w.db.email_outbox in
      let q = chosen at limit rows in
      let taken : All (λ r. r.id ≢ i) (keep_if q rows) =
        All-map (λ r. ((All (λ x. x.id ≡ r.id → x ≡ r) rows) × Away i r) × (q r ≡ true))
          (λ r. r.id ≢ i)
          (λ r ((one, gone), hit) e. absurd (cc (chosen-is_due at limit rows r one hit, gone e at)))
          (keep_if q rows)
          (All-and (λ r. (All (λ x. x.id ≡ r.id → x ≡ r) rows) × Away i r) (λ r. q r ≡ true)
            (keep_if q rows)
            (keep_if-All q (λ r. (All (λ x. x.id ≡ r.id → x ≡ r) rows) × Away i r) rows
              (All-and (λ r. All (λ x. x.id ≡ r.id → x ≡ r) rows) (Away i) rows
                (one_row_each rows d) away))
            (keep_if-test q rows)) in
      subst (All (λ n. n.id ≢ i)) (sym (claim_sets env at ttl limit w ms h).0) (
        All-mapped outbox_email (λ n. n.id ≢ i) _
          (All-mapped (claimed at (at + ttl) (env.random w.step)) (λ r. r.id ≢ i) (keep_if q rows)
            taken))

-- A mail that was sent, or that failed for good, is delivered once, in an outbox with distinct row
-- numbers. While the row of the mail is as the delivery left it, whatever became of the others, no
-- claim that succeeds takes the mail, whoever makes it and whatever the time.
pub delivered_once :
    (env : Env) (p : Processor) (m : OutboxEmail) (w : World) (out : Outcome)
    → Ids w.db.email_outbox
    → (deliver env p m w).0 ≡ ok out
    → (out ≡ Processor.sent) ⊎ (out ≡ Processor.permanent_failure)
    → (other : Env) (at ttl limit : ℕ) (later : World) (ms : List OutboxEmail)
    → Ids later.db.email_outbox
    → row_of m.id later.db.email_outbox ≡ row_of m.id (deliver env p m w).1.db.email_outbox
    → (claim_pending other at ttl limit later).0 ≡ ok ms
    → All (λ n. n.id ≢ m.id) ms
delivered_once env p m w out d h final other at ttl limit later ms d' same claim =
    claim_leaves other at ttl limit m.id later ms d'
      (Away-row_of m.id (deliver env p m w).1.db.email_outbox later.db.email_outbox d' same
        (delivered_away env p m w out d h final))
      claim
