-- ===== src/Email/Processor/Delivery.antt =====
-- What becomes of a claimed mail, and of the text of an error.
use go_spark.Base.{
  ℕ, suc, ◌+◌, ◌-◌, ◌≤◌, ◌<◌, Text, ◌≡◌, ◌≢◌, refl, sym, ap, subst, ◌∙◌, ◌⊎◌, inl, inr, List, [],
  ◌∷◌, ◌++◌, true, false, Option, none, some, is_some, leb, All, Distinct, find_if, find_if-test,
  find_if-All, update_if, update_if-All, Option-cases, Bool-cases, arith, rune_len, byte_length,
}
use go_spark.Schema.{EmailOutbox, pending, failed, Db}
use go_spark.Effect.{Env, World, ok, ◌>>=◌, is_no_rows, tick}
use go_spark.Queries.Outbox.{
  is_claim, is_due, marked_sent, marked_failed, mark_email_sent, mark_email_failed,
  mark_email_failed_permanently,
}
use go_spark.Email.OutboxStore.{OutboxEmail, mark_sent, mark_failed, mark_failed_permanently}
use go_spark.Email.Processor.{
  Processor, Outcome, fit, truncate_last_error, max_last_error_length, settle, deliver, send,
}
use go_spark.Email.Processor

-- The text is cut to what fits: a prefix of at most `n` bytes, and the next code point would not
-- fit.
abbrev pub Cut : ℕ → Text → Text → Type 0
Cut n e t =
    (byte_length t ≤ n)
    × ((rest : Text) × (e ≡ t ++ rest)
        × ((rest ≡ [])
            ⊎ ((c : ℕ) × (more : Text) × (rest ≡ c ∷ more) × (n < byte_length t + rune_len c))))

fit-Cut : (n : ℕ) (e : Text) → Cut n e (fit n e)
unfolding fit byte_length
fit-Cut n [] = (omega arith, ([], refl, inl refl))
fit-Cut n (c ∷ s) = elim (Bool-cases (leb (rune_len c) n)) [
  | inl h ↦
      (let (short, (rest, split, end)) = fit-Cut (n - rune_len c) s in
        rw h (ground (arith, short, h), (rest, ap (λ t. c ∷ t) split, more rest h end)))
  | inr h ↦ rw h (omega arith, (c ∷ s, refl, inr (c, s, refl, ground (arith, h))))
]
  where
    more :
        (rest : Text)
        → leb (rune_len c) n ≡ true
        → (rest ≡ [])
          ⊎ ((x : ℕ) × (xs : Text) × (rest ≡ x ∷ xs)
              × (n - rune_len c < byte_length (fit (n - rune_len c) s) + rune_len x))
        → (rest ≡ [])
          ⊎ ((x : ℕ) × (xs : Text) × (rest ≡ x ∷ xs)
              × (n < rune_len c + byte_length (fit (n - rune_len c) s) + rune_len x))
    more rest h (inl e) = inl e
    more rest h (inr (x, xs, e, l)) = inr (x, xs, e, ground (arith, h, l))

append_nil : (e : Text) → e ≡ e ++ []
append_nil [] = refl
append_nil (c ∷ s) = ap (λ t. c ∷ t) (append_nil s)

-- The error text that is stored is the longest prefix of whole characters of at most 1024 bytes.
truncate_last_error-Cut : (e : Text) → Cut max_last_error_length e (truncate_last_error e)
unfolding truncate_last_error
truncate_last_error-Cut e = elim (Bool-cases (leb (byte_length e) max_last_error_length)) [
  | inl h ↦ rw h (ground (arith, h), ([], append_nil e, inl refl))
  | inr h ↦ rw h (fit-Cut max_last_error_length e)
]

module _ (env : Env) (p : Processor) where
  -- The row of a claimed mail is still under its claim, and is changed so, with nothing else.
  abbrev Marked : OutboxEmail → (EmailOutbox → EmailOutbox) → Db → Db → Type 0
  Marked m change d d' =
      (is_some (find_if (is_claim m.id m.claim_token) d.email_outbox) ≡ true)
      × (d' ≡ record d {
        email_outbox = update_if (is_claim m.id m.claim_token) change d.email_outbox;
      })

  -- What an outcome says of a mail, of how its sending ended, and of the database.
  abbrev pub Settled : OutboxEmail → Option Text → ℕ → Db → Outcome → Db → Type 0
  Settled m failure at d Processor.sent d' = (failure ≡ none) × Marked m (marked_sent at) d d'
  Settled m failure at d Processor.retry_scheduled d' =
      (m.attempts + 1 < p.max_attempts)
      × ((e : Text) × (failure ≡ some e)
          × Marked m (marked_failed pending (truncate_last_error e) (at + p.retry_delay)) d d')
  Settled m failure at d Processor.permanent_failure d' =
      (p.max_attempts ≤ m.attempts + 1)
      × ((e : Text) × (failure ≡ some e)
          × Marked m (marked_failed failed (truncate_last_error e) at) d d')
  Settled m failure at d Processor.skipped_claim_lost d' =
      (find_if (is_claim m.id m.claim_token) d.email_outbox ≡ none) × (d' ≡ d)

  settle_row :
      (m : OutboxEmail) (failure : Option Text) (w : World) (out : Outcome) (o : Option EmailOutbox)
      → find_if (is_claim m.id m.claim_token) w.db.email_outbox ≡ o
      → (settle env p m failure w).0 ≡ ok out
      → Settled m failure (env.clock w.step) w.db out (settle env p m failure w).1.db
  unfolding settle ◌>>=◌ mark_sent mark_failed mark_failed_permanently mark_email_sent
      mark_email_failed mark_email_failed_permanently is_no_rows
  settle_row m none w Processor.sent none q h = absurd (ground (arith, q, h))
  settle_row m none w Processor.retry_scheduled none q h = absurd (ground (arith, q, h))
  settle_row m none w Processor.permanent_failure none q h = absurd (ground (arith, q, h))
  settle_row m none w Processor.skipped_claim_lost none q h = (q, ground (arith, q, h))
  settle_row m none w Processor.sent (some r) q h = (refl, (rw q refl, ground (arith, q, h)))
  settle_row m none w Processor.retry_scheduled (some r) q h = absurd (ground (arith, q, h))
  settle_row m none w Processor.permanent_failure (some r) q h = absurd (ground (arith, q, h))
  settle_row m none w Processor.skipped_claim_lost (some r) q h = absurd (ground (arith, q, h))
  settle_row m (some e) w Processor.sent none q h = absurd (ground (arith, q, h))
  settle_row m (some e) w Processor.retry_scheduled none q h = absurd (ground (arith, q, h))
  settle_row m (some e) w Processor.permanent_failure none q h = absurd (ground (arith, q, h))
  settle_row m (some e) w Processor.skipped_claim_lost none q h = (q, ground (arith, q, h))
  settle_row m (some e) w Processor.sent (some r) q h = absurd (ground (arith, q, h))
  settle_row m (some e) w Processor.retry_scheduled (some r) q h =
      (ground (arith, q, h), (e, refl, (rw q refl, ground (arith, q, h))))
  settle_row m (some e) w Processor.permanent_failure (some r) q h =
      (ground (arith, q, h), (e, refl, (rw q refl, ground (arith, q, h))))
  settle_row m (some e) w Processor.skipped_claim_lost (some r) q h = absurd (ground (arith, q, h))

  -- A delivery that is not broken off by an error ends in one of four ways, by the sending and by
  -- the claim. If the row is no longer under the claim, nothing changes. Else it is marked, and
  -- nothing but that row changes: as sent if the sending went well; as pending again, for the
  -- retry delay, if it failed and attempts are left; and as failed for good if none is left.
  pub deliver_settles :
      (m : OutboxEmail) (w : World) (out : Outcome)
      → (deliver env p m w).0 ≡ ok out
      → Settled m
          (p.send w.step m.message)
          (env.clock (suc w.step))
          w.db
          out
          (deliver env p m w).1.db
  unfolding deliver send ◌>>=◌
  deliver_settles m w out h = settle_row m (p.send w.step m.message) (tick w) out _ refl h

  claim_id :
      (m : OutboxEmail) (r : EmailOutbox) → is_claim m.id m.claim_token r ≡ true → r.id ≡ m.id
  claim_id m r h = ground (arith, h)

  marked_away :
      (m : OutboxEmail) (change : EmailOutbox → EmailOutbox) (rows : List EmailOutbox)
      → Distinct (λ (r : EmailOutbox). r.id) rows
      → is_some (find_if (is_claim m.id m.claim_token) rows) ≡ true
      → ((r : EmailOutbox) (t : ℕ) → is_due t (change r) ≡ false)
      → All
          (λ r. r.id ≡ m.id → (t : ℕ) → is_due t r ≡ false)
          (update_if (is_claim m.id m.claim_token) change rows)
  unfolding find_if update_if
  marked_away m change [] d f away = tt
  marked_away m change (x ∷ xs) d f away = elim (Bool-cases (is_claim m.id m.claim_token x)) [
    | inl e ↦ rw e (
      (λ _ t. away x t),
      update_if-All (is_claim m.id m.claim_token) (λ y. x.id ≢ y.id)
          (λ r. r.id ≡ m.id → (t : ℕ) → is_due t r ≡ false) change (λ y ne hit _ t. away y t)
          (λ y ne miss same. absurd (ne (claim_id m x e ∙ sym same))) xs d.0,
    )
    | inr e ↦ rw e (
      (λ same.
          absurd
            (apart (Option-cases (find_if (is_claim m.id m.claim_token) xs)) (rw e at f) same)),
      marked_away m change xs d.1 (rw e at f) away,
    )
  ]
    where
      apart :
          (find_if (is_claim m.id m.claim_token) xs ≡ none)
            ⊎ ((y : EmailOutbox) × (find_if (is_claim m.id m.claim_token) xs ≡ some y))
          → is_some (find_if (is_claim m.id m.claim_token) xs) ≡ true
          → x.id ≢ m.id
      apart (inl q) g same = absurd (ground (arith, q, g))
      apart (inr (y, q)) g same =
          find_if-All (is_claim m.id m.claim_token) (λ z. x.id ≢ z.id) xs d.0 q
            (same ∙ sym (claim_id m y (find_if-test (is_claim m.id m.claim_token) xs q)))

  -- The row that a mail which was sent, or which failed for good, leaves is not due at any time.
  pub delivered_away :
      (m : OutboxEmail) (w : World) (out : Outcome)
      → Distinct (λ (r : EmailOutbox). r.id) w.db.email_outbox
      → (deliver env p m w).0 ≡ ok out
      → (out ≡ Processor.sent) ⊎ (out ≡ Processor.permanent_failure)
      → All (λ r. r.id ≡ m.id → (t : ℕ) → is_due t r ≡ false) (deliver env p m w).1.db.email_outbox
  delivered_away m w out d h (inl e) =
      let (sent_well, (there, row)) =
        subst
          (λ o.
            Settled m (p.send w.step m.message) (env.clock (suc w.step)) w.db o
              (deliver env p m w).1.db)
          e (deliver_settles m w out h) in
      rw row (
        marked_away m (marked_sent (env.clock (suc w.step))) w.db.email_outbox d there
          (λ r t. refl))
  delivered_away m w out d h (inr e) =
      let (spent, (text, _, (there, row))) =
        subst
          (λ o.
            Settled m (p.send w.step m.message) (env.clock (suc w.step)) w.db o
              (deliver env p m w).1.db)
          e (deliver_settles m w out h) in
      rw row (
        marked_away m (marked_failed failed (truncate_last_error text) (env.clock (suc w.step)))
          w.db.email_outbox d there (λ r t. refl))
