-- ===== src/Validity/Outbox.antt =====
-- The statements on the outbox and on the second factor keep a database well formed.
use go_spark.Base.{
  ℕ, Text, ◌≡◌, refl, inl, inr, Bool, not, Option-cases, find_if, keep_if-Distinct, delete_if,
  update_if, update_if-Distinct, max_key_fresh, Distinct-append,
}
use go_spark.Schema.{EmailOutbox, Db}
use go_spark.Effect.Invariants.{Maintains, After}
use go_spark.Email.Messages.{Message}
use go_spark.Queries.Outbox.{
  enqueue_email, claim_pending_emails, claimed, is_claim, mark, marked_sent, marked_failed,
  mark_email_sent, mark_email_failed, mark_email_failed_permanently, prune_sent_email_outbox_rows,
  prune_failed_email_outbox_rows,
}
use go_spark.Validity.Tables.{with_outbox}
use go_spark.Validity.{Valid}

pub enqueue_email-Valid :
    (m : Message) (available : ℕ) → Maintains Valid (enqueue_email m available)
unfolding enqueue_email
enqueue_email-Valid m available = record {
  at = λ t d v. with_outbox d v _ (
      Distinct-append (λ r. r.id) d.email_outbox _ v.outbox
        (max_key_fresh (λ r. r.id) d.email_outbox));
}

-- Any change of outbox rows that leaves the row numbers alone.
update-Valid :
    (p : EmailOutbox → Bool) (f : EmailOutbox → EmailOutbox) (d : Db)
    → ((r : EmailOutbox) → (f r).id ≡ r.id)
    → Valid d
    → Valid (record d { email_outbox = update_if p f d.email_outbox })
update-Valid p f d same v =
    with_outbox d v _ (update_if-Distinct p (λ r. r.id) f same d.email_outbox v.outbox)

delete-Valid :
    (p : EmailOutbox → Bool) (d : Db)
    → Valid d
    → Valid (record d { email_outbox = delete_if p d.email_outbox })
unfolding delete_if
delete-Valid p d v =
    with_outbox d v _ (keep_if-Distinct (λ r. not (p r)) (λ r. r.id) d.email_outbox v.outbox)

pub claim_pending_emails-Valid :
    (at expires : ℕ) (token : Text) (limit : ℕ)
    → Maintains Valid (claim_pending_emails at expires token limit)
unfolding claim_pending_emails
claim_pending_emails-Valid at expires token limit = record {
  at = λ t d. update-Valid _ (claimed at expires token) d (λ r. refl);
}

mark-Valid :
    (id : ℕ) (token : Text) (change : EmailOutbox → EmailOutbox)
    → ((r : EmailOutbox) → (change r).id ≡ r.id)
    → (t : ℕ) (d : Db) → Valid d
    → After Valid (mark id token change t d)
mark-Valid id token change same t d v =
    elim (Option-cases (find_if (is_claim id token) d.email_outbox)) [
      | inl e ↦ rw (e, After) tt
      | inr (r, e) ↦ rw (e, After) (update-Valid (is_claim id token) change d same v)
    ]

pub mark_email_sent-Valid :
    (id : ℕ) (token : Text) (at : ℕ) → Maintains Valid (mark_email_sent id token at)
unfolding mark_email_sent
mark_email_sent-Valid id token at = record { at = mark-Valid id token (marked_sent at) (λ r. refl) }

pub mark_email_failed-Valid :
    (id : ℕ) (token last_error : Text) (available : ℕ)
    → Maintains Valid (mark_email_failed id token last_error available)
unfolding mark_email_failed
mark_email_failed-Valid id token last_error available = record {
  at = mark-Valid id token (marked_failed _ last_error available) (λ r. refl);
}

pub mark_email_failed_permanently-Valid :
    (id : ℕ) (token last_error : Text) (available : ℕ)
    → Maintains Valid (mark_email_failed_permanently id token last_error available)
unfolding mark_email_failed_permanently
mark_email_failed_permanently-Valid id token last_error available = record {
  at = mark-Valid id token (marked_failed _ last_error available) (λ r. refl);
}

pub prune_sent_email_outbox_rows-Valid :
    (before : ℕ) → Maintains Valid (prune_sent_email_outbox_rows before)
unfolding prune_sent_email_outbox_rows
prune_sent_email_outbox_rows-Valid before = record { at = λ t d. delete-Valid _ d }

pub prune_failed_email_outbox_rows-Valid :
    (before : ℕ) → Maintains Valid (prune_failed_email_outbox_rows before)
unfolding prune_failed_email_outbox_rows
prune_failed_email_outbox_rows-Valid before = record { at = λ t d. delete-Valid _ d }
