-- ===== src/Email/OutboxStore.antt =====
-- internal/database/email_outbox_store.go: the outbox as the processor sees it.
use go_spark.Base.{◌≡◌, none, [], ℕ, ◌+◌, Text, List, map, ◌==◌, if◌then◌else◌}
use go_spark.Schema.{EmailOutbox, pending}
use go_spark.Effect.{Env, Action, ◌>>=◌, ◌>>◌, pure, raise, draw, exec, message_failure}
use go_spark.Email.Messages.{Message}
use go_spark.Queries.Outbox

-- internal/email/processor.go.
pub record OutboxEmail : Type 0 where
  pub id : ℕ
  pub message : Message
  pub attempts : ℕ
  pub claim_token : Text

-- The loop over the claimed rows.
abbrev pub outbox_email : EmailOutbox → OutboxEmail
outbox_email r = record {
  id = r.id;
  message = record {
    from = r.sender;
    to = r.recipient;
    subject = r.subject;
    text_body = r.text_body;
    html_body = r.html_body;
  };
  attempts = r.attempts;
  claim_token = r.claim_token;
}

-- A row that is to be sent as the message says, from a time on, and was never tried.
abbrev pub Queued : Message → ℕ → EmailOutbox → Type 0
Queued message available r =
    ((outbox_email r).message ≡ message)
    × (r.status ≡ pending)
    × (r.attempts ≡ 0)
    × (r.available_at ≡ available)
    × (r.claim_token ≡ [])
    × (r.claim_expires_at ≡ none)
    × (r.sent_at ≡ none)

module _ (env : Env) where
  unfoldable pub enqueue : Message → ℕ → Action EmailOutbox
  enqueue message available = exec env (Outbox.enqueue_email message available)

  -- A limit or a claim time that is not positive is an error, which carries only a text.
  unfoldable pub claim_pending : ℕ → ℕ → ℕ → Action (List OutboxEmail)
  claim_pending at ttl limit =
      if limit == 0 then raise message_failure else if ttl == 0 then raise message_failure else do
        token ← draw env
        rows ← exec env (Outbox.claim_pending_emails at (at + ttl) token limit)
        pure (map outbox_email rows)

  unfoldable pub mark_sent : ℕ → Text → ℕ → Action (Unit {0})
  mark_sent id token at = exec env (Outbox.mark_email_sent id token at) >> pure tt

  unfoldable pub mark_failed : ℕ → Text → Text → ℕ → Action (Unit {0})
  mark_failed id token last_error available =
      exec env (Outbox.mark_email_failed id token last_error available) >> pure tt

  unfoldable pub mark_failed_permanently : ℕ → Text → Text → ℕ → Action (Unit {0})
  mark_failed_permanently id token last_error at =
      exec env (Outbox.mark_email_failed_permanently id token last_error at) >> pure tt
