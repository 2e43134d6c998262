-- ===== src/Email/Processor/Progress.antt =====
-- A cycle of the worker (internal/email/processor.go) in which nothing fails but sendings.
use go_spark.Base.{
  ℕ, suc, ◌+◌, ◌<◌, Text, ◌≡◌, ◌≢◌, refl, ap, ◌∙◌, List, [], ◌∷◌, true, false, Option, none, some,
  is_some, All-map, All-and, Distinct, find_if, keep_if, keep_if-Distinct, update_if, map, arith,
}
use go_spark.Schema.{EmailOutbox}
use go_spark.Effect.{Env, World, ok, pure, now, ◌>>=◌, tick}
use go_spark.Effect.Success.{bind_step}
use go_spark.Queries.Outbox.{
  is_claim, claimed, mark_email_sent, claim_pending_emails, mark_email_failed,
  mark_email_failed_permanently,
}
use go_spark.Email.OutboxStore.{
  OutboxEmail, outbox_email, claim_pending, mark_sent, mark_failed, mark_failed_permanently,
}
use go_spark.Email.Processor.{Processor, deliver, deliver_all, process_pending, settle, send}
use go_spark.Email.Processor.Claims.{Ids, chosen, All-mapped}
use go_spark.Email.Processor.Sweep.{
  result_of, change_of, change_of-id, outcomes, settled, swept, settled-swept,
}
use go_spark.Email.Processor.Held.{is_held, Held, still_held, Distinct-mapped, claimed_held}

-- The mails that a cycle is to send: those that its claim takes.
abbrev to_send : Env → Processor → World → List OutboxEmail
to_send env p w =
    let at = env.clock (suc w.step) in
    map outbox_email (
      map (claimed at (at + p.claim_ttl) (env.random (suc (suc w.step))))
        (keep_if (chosen at p.batch_size w.db.email_outbox) w.db.email_outbox))

module _ (env : Env) (p : Processor) (works : (n : ℕ) → env.fails n ≡ false) where
  -- A claimed row is marked by how the sending of its mail ended.
  settle_marks :
      (m : OutboxEmail) (failure : Option Text) (w : World) (o : Option EmailOutbox)
      → find_if (is_claim m.id m.claim_token) w.db.email_outbox ≡ o
      → is_some o ≡ true
      → settle env p m failure w ≡ (
        ok (result_of p m failure),
        record {
          db = record w.db {
            email_outbox =
                update_if
                  (is_claim m.id m.claim_token)
                  (change_of p m failure (env.clock w.step))
                  w.db.email_outbox;
          };
          step = suc (suc w.step);
        },
      )
  unfolding settle ◌>>=◌ mark_sent mark_failed mark_failed_permanently mark_email_sent
      mark_email_failed mark_email_failed_permanently
  settle_marks m failure w none q h = absurd (cc h)
  settle_marks m none w (some r) q h = ground (arith, q, works (suc w.step))
  settle_marks m (some e) w (some r) q h = ground (arith, q, works (suc w.step))

  abbrev marked : OutboxEmail → World → List EmailOutbox
  marked m w =
      update_if (is_claim m.id m.claim_token)
        (change_of p m (p.send w.step m.message) (env.clock (suc w.step))) w.db.email_outbox

  deliver_marks :
      (m : OutboxEmail) (w : World)
      → is_held w.db.email_outbox m ≡ true
      → deliver env p m w ≡ (
        ok (result_of p m (p.send w.step m.message)),
        record { db = record w.db { email_outbox = marked m w }; step = suc (suc (suc w.step)) },
      )
  unfolding deliver send ◌>>=◌
  deliver_marks m w h = settle_marks m (p.send w.step m.message) (tick w) _ refl h

  deliver_all_marks :
      (ms : List OutboxEmail) (w : World)
      → Distinct (λ (m : OutboxEmail). m.id) ms
      → Held ms w.db.email_outbox
      → ((deliver_all env p ms w).0 ≡ ok (outcomes env p w.step ms))
        × ((deliver_all env p ms w).1.db
            ≡ record w.db { email_outbox = settled env p w.step ms w.db.email_outbox })
  unfolding deliver_all pure
  deliver_all_marks [] w d h = (refl, refl)
  deliver_all_marks (m ∷ ms) w d h =
      let change = change_of p m (p.send w.step m.message) (env.clock (suc w.step)) in
      let went = deliver_marks m w h.0 in
      let w' : World = record {
        db = record w.db { email_outbox = marked m w };
        step = suc (suc (suc w.step));
      } in
      let held : Held ms (marked m w) =
        All-map (λ n. (m.id ≢ n.id) × (is_held w.db.email_outbox n ≡ true))
          (λ n. is_held (marked m w) n ≡ true)
          (λ n (ne, there).
            still_held m n change w.db.email_outbox
              (change_of-id p m (p.send w.step m.message) (env.clock (suc w.step))) ne there)
          ms (All-and (λ n. m.id ≢ n.id) (λ n. is_held w.db.email_outbox n ≡ true) ms d.0 h.1) in
      let (outs, db) = deliver_all_marks ms w' d.1 held in
      let e =
        bind_step (deliver env p m) _ w (result_of p m (p.send w.step m.message))
          (ap (λ r. r.0) went)
        ∙ ap
            (λ r.
              (deliver_all env p ms >>= λ outs.
              pure (result_of p m (p.send w.step m.message) ∷ outs))
                r.1)
            went
        ∙ bind_step (deliver_all env p ms) _ w' (outcomes env p w'.step ms) outs in
      (ap (λ r. r.0) e, ap (λ r. r.1.db) e ∙ db)

  claim_works :
      (at : ℕ) (w : World)
      → 0 < p.batch_size
      → 0 < p.claim_ttl
      → claim_pending env at p.claim_ttl p.batch_size w ≡ (
        ok (
            map outbox_email (
              map
                (claimed at (at + p.claim_ttl) (env.random w.step))
                (keep_if (chosen at p.batch_size w.db.email_outbox) w.db.email_outbox))),
        record (tick (tick w)) {
          db = record w.db {
            email_outbox =
                update_if
                  (chosen at p.batch_size w.db.email_outbox)
                  (claimed at (at + p.claim_ttl) (env.random w.step))
                  w.db.email_outbox;
          };
        },
      )
  unfolding claim_pending ◌>>=◌ claim_pending_emails
  claim_works at w b t = ground (arith, b, t, works w.step, works (suc w.step))

  -- When no effect of the database or the random source fails, and the batch size and the claim
  -- time are positive, a cycle of the worker in an outbox with distinct row numbers succeeds. The
  -- outcomes are, in turn, those of sending the own message of each mail that its claim takes, from
  -- the fourth step on and three steps apart. In the database it leaves, each row that it took is
  -- marked by how that sending ended, as sent, for a retry, or as failed for good, and nothing else
  -- has changed.
  pub process_pending_settles :
      (w : World)
      → 0 < p.batch_size
      → 0 < p.claim_ttl
      → Ids w.db.email_outbox
      → ((process_pending env p w).0
          ≡ ok (outcomes env p (suc (suc (suc (suc w.step)))) (to_send env p w)))
        × ((process_pending env p w).1.db ≡ record w.db {
          email_outbox =
              swept env p
                (chosen (env.clock (suc w.step)) p.batch_size w.db.email_outbox)
                (claimed
                  (env.clock (suc w.step))
                  (env.clock (suc w.step) + p.claim_ttl)
                  (env.random (suc (suc w.step))))
                (suc (suc (suc (suc w.step))))
                w.db.email_outbox;
        })
  unfolding process_pending now
  process_pending_settles w b t d =
      let at = env.clock (suc w.step) in
      let rows = w.db.email_outbox in
      let token = env.random (suc (suc w.step)) in
      let q = chosen at p.batch_size rows in
      let c = claim_works at (tick (tick w)) b t in
      let w' : World = record (tick (tick (tick (tick w)))) {
        db = record w.db { email_outbox = update_if q (claimed at (at + p.claim_ttl) token) rows };
      } in
      let held : Held (to_send env p w) w'.db.email_outbox =
        All-mapped outbox_email (λ m. is_held w'.db.email_outbox m ≡ true) _
          (All-mapped (claimed at (at + p.claim_ttl) token)
            (λ r. is_held w'.db.email_outbox (outbox_email r) ≡ true) (keep_if q rows)
            (claimed_held q at (at + p.claim_ttl) token rows)) in
      let apart =
        Distinct-mapped outbox_email (λ m. m.id) _
          (Distinct-mapped (claimed at (at + p.claim_ttl) token) (λ r. r.id) (keep_if q rows)
            (keep_if-Distinct q (λ (r : EmailOutbox). r.id) rows d)) in
      let e =
        bind_step (now env) _ w (env.clock w.step) refl
        ∙ bind_step (now env) _ (tick w) at refl
        ∙ bind_step (claim_pending env at p.claim_ttl p.batch_size) (deliver_all env p)
            (tick (tick w)) (to_send env p w) (ap (λ r. r.0) c)
        ∙ ap (λ r. deliver_all env p (to_send env p w) r.1) c in
      let (outs, db) = deliver_all_marks (to_send env p w) w' apart held in
      (
        ap (λ r. r.0) e ∙ outs,
        ap (λ r. r.1.db) e
            ∙ db
            ∙ ap (λ rows. record w.db { email_outbox = rows })
                (settled-swept env p q at (at + p.claim_ttl) token (suc (suc (suc (suc w.step))))
                  rows d),
      )
