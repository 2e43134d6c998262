-- ===== src/Queries/Outbox.antt =====
-- The statements on the table `email_outbox`: internal/db/generated/email.sql.go.
use go_spark.Base.{
  ℕ, suc, ◌+◌, Text, text_eq, Bool, true, false, ◌&&◌, ◌||◌, Option, none, some, List, [], ◌∷◌,
  ◌++◌, ◌==◌, ltb, leb, take, find_if, keep_if, update_if, delete_if, count_if, max_key, order_by,
  map,
}
use go_spark.Schema.{Status, pending, sending, sent, failed, EmailOutbox}
use go_spark.Effect.{ok, err, Query, no_rows}
use go_spark.Queries.Users.{one_row}
use go_spark.Email.Messages.{Message}

abbrev pub new_email : Message → ℕ → ℕ → List EmailOutbox → EmailOutbox
new_email m available now rows = record {
  id = suc (max_key (λ r. r.id) rows);
  sender = m.from;
  recipient = m.to;
  subject = m.subject;
  text_body = m.text_body;
  html_body = m.html_body;
  status = pending;
  attempts = 0;
  last_error = [];
  available_at = available;
  claimed_at = none;
  claim_expires_at = none;
  claim_token = [];
  sent_at = none;
  created_at = now;
}

unfoldable pub enqueue_email : Message → ℕ → Query EmailOutbox
enqueue_email m available now d =
    let row = new_email m available now d.email_outbox in
    ok (row, record d { email_outbox = d.email_outbox ++ (row ∷ []) })

unfoldable pub get_email_outbox_row : ℕ → Query EmailOutbox
get_email_outbox_row id now d = one_row (find_if (λ r. r.id == id) d.email_outbox) d

abbrev pub is_status : Status → Status → Bool
is_status pending pending = true
is_status sending sending = true
is_status sent sent = true
is_status failed failed = true
is_status _ _ = false

abbrev pub at_or_before : Option ℕ → ℕ → Bool
at_or_before none at = false
at_or_before (some t) at = leb t at

-- The WHERE of the inner SELECT: due, or claimed by a worker whose claim has run out.
abbrev pub is_due : ℕ → EmailOutbox → Bool
is_due at r =
    (is_status r.status pending && leb r.available_at at)
    || (is_status r.status sending && at_or_before r.claim_expires_at at)

-- ORDER BY available_at, id
abbrev pub earlier : EmailOutbox → EmailOutbox → Bool
earlier r s =
    ltb r.available_at s.available_at || (r.available_at == s.available_at && leb r.id s.id)

-- The row numbers of the inner SELECT.
unfoldable pub due_ids : ℕ → ℕ → List EmailOutbox → List ℕ
due_ids at limit rows = map (λ r. r.id) (take limit (order_by earlier (keep_if (is_due at) rows)))

unfoldable pub member : ℕ → List ℕ → Bool
member i [] = false
member i (j ∷ js) = i == j || member i js

abbrev pub claimed : ℕ → ℕ → Text → EmailOutbox → EmailOutbox
claimed at expires token r = record r {
  status = sending;
  claimed_at = some at;
  claim_expires_at = some expires;
  claim_token = token;
}

-- UPDATE … WHERE id IN (SELECT …) RETURNING …: the rows as they are afterwards.
unfoldable pub claim_pending_emails : ℕ → ℕ → Text → ℕ → Query (List EmailOutbox)
claim_pending_emails at expires token limit now d =
    let chosen = λ (r : EmailOutbox). member r.id (due_ids at limit d.email_outbox) in
    ok (
      map (claimed at expires token) (keep_if chosen d.email_outbox),
      record d { email_outbox = update_if chosen (claimed at expires token) d.email_outbox },
    )

-- WHERE id = ? AND claim_token = ?
abbrev pub is_claim : ℕ → Text → EmailOutbox → Bool
is_claim id token r = r.id == id && text_eq r.claim_token token

abbrev pub marked_sent : ℕ → EmailOutbox → EmailOutbox
marked_sent at r = record r {
  status = sent;
  claimed_at = none;
  claim_expires_at = none;
  claim_token = [];
  sent_at = some at;
}

abbrev pub marked_failed : Status → Text → ℕ → EmailOutbox → EmailOutbox
marked_failed status last_error available r = record r {
  status = status;
  attempts = r.attempts + 1;
  last_error = last_error;
  available_at = available;
  claimed_at = none;
  claim_expires_at = none;
  claim_token = [];
}

-- UPDATE of the claimed row, and the row as RETURNING gives it.
abbrev pub mark : ℕ → Text → (EmailOutbox → EmailOutbox) → Query EmailOutbox
mark id token change now d = elim (find_if (is_claim id token) d.email_outbox) [
  | none ↦ err no_rows
  | some r ↦
      ok (change r, record d { email_outbox = update_if (is_claim id token) change d.email_outbox })
]

unfoldable pub mark_email_sent : ℕ → Text → ℕ → Query EmailOutbox
mark_email_sent id token at = mark id token (marked_sent at)

unfoldable pub mark_email_failed : ℕ → Text → Text → ℕ → Query EmailOutbox
mark_email_failed id token last_error available =
    mark id token (marked_failed pending last_error available)

unfoldable pub mark_email_failed_permanently : ℕ → Text → Text → ℕ → Query EmailOutbox
mark_email_failed_permanently id token last_error available =
    mark id token (marked_failed failed last_error available)

unfoldable pub prune_sent_email_outbox_rows : ℕ → Query ℕ
prune_sent_email_outbox_rows before now d =
    let gone = λ (r : EmailOutbox). is_status r.status sent && at_or_before r.sent_at before in
    ok (count_if gone d.email_outbox, record d { email_outbox = delete_if gone d.email_outbox })

unfoldable pub prune_failed_email_outbox_rows : ℕ → Query ℕ
prune_failed_email_outbox_rows before now d =
    let gone = λ (r : EmailOutbox). is_status r.status failed && leb r.available_at before in
    ok (count_if gone d.email_outbox, record d { email_outbox = delete_if gone d.email_outbox })
