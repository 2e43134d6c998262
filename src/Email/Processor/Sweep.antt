-- ===== src/Email/Processor/Sweep.antt =====
-- What a cycle of the worker (internal/email/processor.go) makes of the table of mails: described
-- mail by mail, and in one pass over the table.
use go_spark.Base.{
  ℕ, suc, ◌+◌, Text, text_eq_refl, ◌≡◌, ◌≢◌, refl, sym, ap, subst, ◌∙◌, inl, inr, List, [], ◌∷◌,
  Bool, true, false, Option, none, some, leb, All, All-map, keep_if, keep_if-All, update_if,
  update_if-All, map, Bool-cases, arith, if◌then◌else◌,
}
use go_spark.Schema.{EmailOutbox, pending, failed}
use go_spark.Effect.{Env}
use go_spark.Queries.Outbox.{is_claim, claimed, marked_sent, marked_failed}
use go_spark.Email.OutboxStore.{OutboxEmail, outbox_email}
use go_spark.Email.Processor.{Processor, Outcome, truncate_last_error}
use go_spark.Email.Processor
use go_spark.Email.Processor.Claims.{Ids, All-mapped}

module _ (p : Processor) where
  -- What a mail comes to, by how its sending ended.
  abbrev pub result_of : OutboxEmail → Option Text → Outcome
  result_of m none = Processor.sent
  result_of m (some e) =
      if leb p.max_attempts (m.attempts + 1)
      then Processor.permanent_failure
      else Processor.retry_scheduled

  -- What becomes of its row, at the time of the mark.
  abbrev pub change_of : OutboxEmail → Option Text → ℕ → EmailOutbox → EmailOutbox
  change_of m none at r = marked_sent at r
  change_of m (some e) at r =
      if leb p.max_attempts (m.attempts + 1)
      then marked_failed failed (truncate_last_error e) at r
      else marked_failed pending (truncate_last_error e) (at + p.retry_delay) r

  pub change_of-id :
      (m : OutboxEmail) (failure : Option Text) (at : ℕ) (r : EmailOutbox)
      → (change_of m failure at r).id ≡ r.id
  change_of-id m none at r = refl
  change_of-id m (some e) at r = ground arith

module _ (env : Env) (p : Processor) where
  -- The outcomes of the sendings of a list of mails from a step on: each takes three.
  abbrev pub outcomes : ℕ → List OutboxEmail → List Outcome
  outcomes n [] = []
  outcomes n (m ∷ ms) = result_of p m (p.send n m.message) ∷ outcomes (suc (suc (suc n))) ms

  -- The table after them, one mail after the other.
  abbrev pub settled : ℕ → List OutboxEmail → List EmailOutbox → List EmailOutbox
  settled n [] rows = rows
  settled n (m ∷ ms) rows = settled (suc (suc (suc n))) ms (
      update_if (is_claim m.id m.claim_token)
        (change_of p m (p.send n m.message) (env.clock (suc n))) rows)

  -- A row that is sent at a step: it is changed by how the sending of its own message ends then.
  abbrev sent_row : ℕ → EmailOutbox → EmailOutbox
  sent_row n r =
      change_of p (outbox_email r) (p.send n (outbox_email r).message) (env.clock (suc n)) r

  -- The table after a cycle: the chosen rows are claimed and sent in the order of the table, three
  -- steps each, and the others are kept.
  abbrev pub swept :
      (EmailOutbox → Bool) → (EmailOutbox → EmailOutbox) → ℕ → List EmailOutbox → List EmailOutbox
  swept q claim n [] = []
  swept q claim n (r ∷ rows) =
      (if q r then sent_row n (claim r) else r)
      ∷ swept q claim (if q r then suc (suc (suc n)) else n) rows

  settled-skip :
      (n : ℕ) (ms : List OutboxEmail) (x : EmailOutbox) (rows : List EmailOutbox)
      → All (λ m. m.id ≢ x.id) ms
      → settled n ms (x ∷ rows) ≡ x ∷ settled n ms rows
  unfolding update_if
  settled-skip n [] x rows h = refl
  settled-skip n (m ∷ ms) x rows h =
      let miss : is_claim m.id m.claim_token x ≡ false = ground (arith, h.0) in
      rw miss (settled-skip (suc (suc (suc n))) ms x _ h.1)

  update_if-none :
      (i : ℕ) (token : Text) (change : EmailOutbox → EmailOutbox) (rows : List EmailOutbox)
      → All (λ r. i ≢ r.id) rows
      → update_if (is_claim i token) change rows ≡ rows
  unfolding update_if
  update_if-none i token change [] h = refl
  update_if-none i token change (r ∷ rows) h =
      let miss : is_claim i token r ≡ false = ground (arith, h.0) in
      rw miss (ap (λ rs. r ∷ rs) (update_if-none i token change rows h.1))

  -- Mail by mail and in one pass is the same.
  pub settled-swept :
      (q : EmailOutbox → Bool) (at expires : ℕ) (token : Text) (n : ℕ) (rows : List EmailOutbox)
      → Ids rows
      → settled n
          (map outbox_email (map (claimed at expires token) (keep_if q rows)))
          (update_if q (claimed at expires token) rows)
        ≡ swept q (claimed at expires token) n rows
  unfolding keep_if update_if
  settled-swept q at expires token n [] d = refl
  settled-swept q at expires token n (x ∷ xs) d =
      let claim = claimed at expires token in
      let others : All (λ m. m.id ≢ x.id) (map outbox_email (map claim (keep_if q xs))) =
        All-mapped outbox_email (λ m. m.id ≢ x.id) _
          (All-mapped claim (λ r. r.id ≢ x.id) (keep_if q xs)
            (keep_if-All q (λ r. r.id ≢ x.id) xs
              (All-map (λ r. x.id ≢ r.id) (λ r. r.id ≢ x.id) (λ r ne e. ne (sym e)) xs d.0))) in
      elim (Bool-cases (q x)) [
        | inl e ↦
            (let m = outbox_email (claim x) in
              let change = change_of p m (p.send n m.message) (env.clock (suc n)) in
              let apart : All (λ r. x.id ≢ r.id) (update_if q claim xs) =
                update_if-All q (λ r. x.id ≢ r.id) (λ r. x.id ≢ r.id) claim (λ r ne _. ne)
                  (λ r ne _. ne) xs d.0 in
              let hit : is_claim x.id token (claim x) ≡ true = ground (arith, text_eq_refl token) in
              let first =
                ap (λ rows. change (claim x) ∷ rows)
                  (update_if-none x.id token change (update_if q claim xs) apart) in
              let same : (change (claim x)).id ≡ x.id =
                change_of-id p m (p.send n m.message) (env.clock (suc n)) (claim x) in
              rw e (
                ap
                  (λ b. settled (suc (suc (suc n))) (map outbox_email (map claim (keep_if q xs))) (
                    (if b then change (claim x) else claim x)
                    ∷ update_if (is_claim x.id token) change (update_if q claim xs)))
                  hit
                ∙ ap (settled (suc (suc (suc n))) (map outbox_email (map claim (keep_if q xs))))
                    first
                ∙ settled-skip (suc (suc (suc n))) _ (change (claim x)) _ (
                    subst (λ i. All (λ m. m.id ≢ i) (map outbox_email (map claim (keep_if q xs))))
                      (sym same) others)
                ∙ ap (λ rows. change (claim x) ∷ rows)
                    (settled-swept q at expires token (suc (suc (suc n))) xs d.1)))
        | inr e ↦ rw e (
            settled-skip n _ x _ others
            ∙ ap (λ rows. x ∷ rows) (settled-swept q at expires token n xs d.1))
      ]
