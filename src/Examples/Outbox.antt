-- ===== src/Examples/Outbox.antt =====
-- The worker on a concrete outbox: a mail that is due, one whose claim has run out, and one that
-- waits.
use go_spark.Base.{
  ℕ, ◌+◌, ◌≤◌, ◌<◌, codes, ◌≡◌, ◌≢◌, refl, inl, true, false, List, [], ◌∷◌, none, some, All, length,
  arith, byte_length, ◌==◌, if◌then◌else◌, find_if, keep_if, update_if, order_by, text_eq, map,
}
use go_spark.Schema.{EmailOutbox, pending, sending, empty_db}
use go_spark.Effect.{World, ok, ◌>>=◌, is_no_rows}
use go_spark.Queries.Outbox.{
  is_due, claimed, due_ids, member, claim_pending_emails, mark_email_sent, marked_sent,
  marked_failed,
}
use go_spark.Email.OutboxStore.{OutboxEmail, outbox_email, claim_pending, mark_sent}
use go_spark.Email.Processor.{
  Processor, sent, retry_scheduled, truncate_last_error, deliver, send, settle,
}
use go_spark.Email.Processor.Claims.{chosen, claim_pending_claims}
use go_spark.Email.Processor.Delivery.{Settled, deliver_settles}
use go_spark.Email.Processor.Once.{delivered_once}
use go_spark.Email.Processor.{process_pending}
use go_spark.Email.Processor.Progress.{process_pending_settles}
use go_spark.Examples.Fixtures.{env}

abbrev mail : ℕ → ℕ → EmailOutbox
mail id available = record {
  id = id;
  sender = codes "app@spark.test";
  recipient = codes "ann@a.test";
  subject = codes "Hello";
  text_body = codes "Hi";
  html_body = codes "Hi";
  status = pending;
  attempts = 0;
  last_error = [];
  available_at = available;
  claimed_at = none;
  claim_expires_at = none;
  claim_token = [];
  sent_at = none;
  created_at = 0;
}

abbrev stuck : EmailOutbox
stuck = record (mail 2 0) {
  status = sending;
  claim_expires_at = some 5;
  claim_token = codes "old";
  attempts = 1;
}

abbrev outbox : List EmailOutbox
outbox = mail 1 3 ∷ stuck ∷ mail 3 900 ∷ []

abbrev queued : World
queued = record { db = record empty_db { email_outbox = outbox }; step = 0 }

abbrev pub processor : Processor
processor = record {
  send = λ n m. none;
  batch_size = 2;
  retry_delay = 60;
  max_attempts = 5;
  claim_ttl = 50;
}

abbrev taken : List OutboxEmail
taken = map outbox_email (map (claimed 10 60 (codes "t")) (mail 1 3 ∷ stuck ∷ []))

claim_pending_claims_example :
    (length taken ≤ 2)
    × (taken
        ≡ map outbox_email
            (map (claimed 10 (10 + 50) (codes "t")) (keep_if (chosen 10 2 outbox) outbox)))
    × (length (keep_if (chosen 10 2 outbox) outbox) ≤ 2)
    × All (λ r. chosen 10 2 outbox r ≡ true → is_due 10 r ≡ true) outbox
    × ((claim_pending env 10 50 2 queued).1.db ≡ record queued.db {
      email_outbox = update_if (chosen 10 2 outbox) (claimed 10 (10 + 50) (codes "t")) outbox;
    })
    × All
        (λ r. chosen 10 2 outbox r ≡ true → (t : ℕ) → t < 10 + 50 → is_due t r ≡ false)
        (claim_pending env 10 50 2 queued).1.db.email_outbox
unfolding claim_pending ◌>>=◌ claim_pending_emails due_ids member order_by keep_if update_if
claim_pending_claims_example =
    claim_pending_claims env 10 50 2 queued taken
      (
        (λ e. ground (arith, e), ((λ e. ground (arith, e)), tt)),
        ((λ e. ground (arith, e), tt), (tt, tt)),
      )
      refl

abbrev held : World
held = record {
  db = record empty_db { email_outbox = claimed 10 60 (codes "t") (mail 1 3) ∷ [] };
  step = 0;
}

deliver_settles_example :
    Settled env processor
      (outbox_email (claimed 10 60 (codes "t") (mail 1 3)))
      none
      1
      held.db
      sent
      (deliver env processor (outbox_email (claimed 10 60 (codes "t") (mail 1 3))) held).1.db
unfolding deliver send settle ◌>>=◌ mark_sent mark_email_sent find_if text_eq is_no_rows
deliver_settles_example =
    deliver_settles env processor (outbox_email (claimed 10 60 (codes "t") (mail 1 3))) held sent
      refl

-- The outbox once the mail was delivered and another one was put there.
abbrev refilled : World
refilled = record {
  db = record empty_db {
    email_outbox = mail 2 0 ∷ marked_sent 1 (claimed 10 60 (codes "t") (mail 1 3)) ∷ [];
  };
  step = 0;
}

delivered_once_example :
    All (λ n. n.id ≢ 1) (outbox_email (claimed 900 950 (codes "t") (mail 2 0)) ∷ [])
unfolding deliver send settle ◌>>=◌ mark_sent mark_email_sent find_if text_eq is_no_rows update_if
    keep_if order_by due_ids member claim_pending claim_pending_emails
delivered_once_example =
    delivered_once env processor (outbox_email (claimed 10 60 (codes "t") (mail 1 3))) held sent
      (tt, tt) refl (inl refl) env 900 50 5 refilled _ ((λ e. ground (arith, e), tt), (tt, tt)) refl
      refl

-- A sender that refuses its second mail, whose claim had run out, and a later step of the clock.
abbrev moody : Processor
moody = record processor { send = λ n m. if n == 17 then some (codes "busy") else none }

abbrev later : World
later = record queued { step = 10 }

process_pending_settles_example :
    ((process_pending env moody later).0 ≡ ok (sent ∷ retry_scheduled ∷ []))
    × ((process_pending env moody later).1.db ≡ record later.db {
      email_outbox =
          marked_sent 15 (claimed 11 61 (codes "t") (mail 1 3))
          ∷ marked_failed pending (codes "busy") 78 (claimed 11 61 (codes "t") stuck)
          ∷ mail 3 900
          ∷ [];
    })
unfolding due_ids member order_by keep_if truncate_last_error byte_length
process_pending_settles_example =
    process_pending_settles env moody (λ n. refl) later (omega arith) (omega arith)
      (
        (λ e. ground (arith, e), ((λ e. ground (arith, e)), tt)),
        ((λ e. ground (arith, e), tt), (tt, tt)),
      )
