-- ===== src/Email/Processor.antt =====
-- internal/email/processor.go: one cycle of the worker that sends the mails of the outbox.
pub mod Delivery
pub mod Progress
pub mod Invariant
pub mod Claims
pub mod Once
pub mod Held
pub mod Limit
pub mod Sweep
use go_spark.Base.{
  ℕ, suc, ◌+◌, ◌-◌, ◌*◌, Text, List, [], ◌∷◌, Bool, Option, none, some, leb, ltb, ◌==◌, length,
  if◌then◌else◌, rune_len, byte_length,
}
use go_spark.Effect.{Env, Action, Result, ok, ◌>>=◌, ◌>>◌, pure, recover, is_no_rows, now, tick}
use go_spark.Email.Messages.{Message}
use go_spark.Email.OutboxStore.{
  OutboxEmail, claim_pending, mark_sent, mark_failed, mark_failed_permanently,
}

abbrev pub max_last_error_length : ℕ
max_last_error_length = 1024

pub record Processor : Type 0 where
  -- What `Sender.Send` does at an effect: nothing, or the text of its error.
  pub send : ℕ → Message → Option Text
  pub batch_size : ℕ
  pub retry_delay : ℕ
  pub max_attempts : ℕ
  pub claim_ttl : ℕ

pub record ProcessorOptions : Type 0 where
  pub batch_size : ℕ
  pub retry_delay : ℕ
  pub max_attempts : ℕ
  pub claim_ttl : ℕ

abbrev or_default : ℕ → ℕ → ℕ
or_default n d = if n == 0 then d else n

unfoldable pub new_processor : (ℕ → Message → Option Text) → ProcessorOptions → Processor
new_processor send opts = record {
  send = send;
  batch_size = or_default opts.batch_size 10;
  retry_delay = or_default opts.retry_delay (60 * 1_000_000_000);
  max_attempts = or_default opts.max_attempts 5;
  claim_ttl = or_default opts.claim_ttl (120 * 1_000_000_000);
}

-- The longest prefix of whole code points whose encoding has at most `n` bytes.
unfoldable pub fit : ℕ → Text → Text
fit n [] = []
fit n (c ∷ s) = let rest = fit (n - rune_len c) s in if leb (rune_len c) n then c ∷ rest else []

-- The cut at 1024 bytes, and the loop that then drops bytes until the rest is valid UTF-8.
unfoldable pub truncate_last_error : Text → Text
unfolding fit
truncate_last_error e =
    if leb (byte_length e) max_last_error_length then e else fit max_last_error_length e

-- What became of a claimed mail, as the counters of the cycle record it.
pub data Outcome : Type 0 where
  sent retry_scheduled permanent_failure skipped_claim_lost : Outcome

-- `if errors.Is(err, sql.ErrNoRows) { skipped++; continue }`: another worker has the claim.
abbrev unless_lost : Outcome → Action (Unit {0}) → Action Outcome
unless_lost out mark = recover is_no_rows (pure skipped_claim_lost) (mark >> pure out)

module _ (env : Env) (p : Processor) where
  -- `sender.Send`
  unfoldable pub send : Message → Action (Option Text)
  send m w = (ok (p.send w.step m), tick w)

  -- After a send: what is marked, by whether it failed and by the number of attempts.
  unfoldable pub settle : OutboxEmail → Option Text → Action Outcome
  settle m none = do at ← now env; unless_lost sent (mark_sent env m.id m.claim_token at)
  settle m (some e) = do
    at ← now env
    if leb p.max_attempts (m.attempts + 1)
        then unless_lost permanent_failure
            (mark_failed_permanently env m.id m.claim_token (truncate_last_error e) at)
        else unless_lost retry_scheduled
            (mark_failed env m.id m.claim_token (truncate_last_error e) (at + p.retry_delay))

  unfoldable pub deliver : OutboxEmail → Action Outcome
  unfolding send settle
  deliver m = do failure ← send m.message; settle m failure

  -- The loop over the claimed mails. An error that is not a lost claim ends it.
  unfoldable pub deliver_all : List OutboxEmail → Action (List Outcome)
  unfolding deliver
  deliver_all [] = pure []
  deliver_all (m ∷ ms) = do out ← deliver m; outs ← deliver_all ms; pure (out ∷ outs)

  -- The outcomes stand for the counters that the cycle logs.
  unfoldable pub process_pending : Action (List Outcome)
  unfolding deliver_all
  process_pending = do
    started ← now env
    at ← now env
    messages ← claim_pending env at p.claim_ttl p.batch_size
    deliver_all messages
