-- ===== src/Cleanup.antt =====
-- internal/jobs/cleanup.go over internal/database/cleanup_store.go: one pass of the cleanup job.
pub mod Spares
pub mod Invariant
use go_spark.Base.{ℕ, ◌+◌, ◌-◌, ◌==◌, ◌||◌, Option, none, some, if◌then◌else◌}
use go_spark.Effect.{Env, Action, ◌>>=◌, ◌>>◌, pure, now, exec}
use go_spark.Queries.Sessions.{delete_expired_sessions}
use go_spark.Queries.Tokens.{
  prune_password_reset_tokens, prune_email_verification_tokens, prune_email_change_tokens,
}
use go_spark.Queries.Outbox.{prune_sent_email_outbox_rows, prune_failed_email_outbox_rows}

pub record CleanupJob : Type 0 where
  pub token_retention : ℕ
  pub sent_email_retention : ℕ
  pub failed_email_retention : ℕ

-- A retention that is not positive is refused at start-up, with an error that carries a text.
unfoldable pub new_cleanup_job : ℕ → ℕ → ℕ → Option CleanupJob
new_cleanup_job tokens sent failed =
    if tokens == 0 || (sent == 0 || failed == 0)
    then none
    else some (record {
      token_retention = tokens;
      sent_email_retention = sent;
      failed_email_retention = failed;
    })

module _ (env : Env) (j : CleanupJob) where
  -- What follows the readings of the clock. The clock is later than the retentions, so that the
  -- differences are those of the code.
  unfoldable pub clean_at : ℕ → Action ℕ
  clean_at at = do
    sessions ← exec env (delete_expired_sessions at)
    resets ← exec env (prune_password_reset_tokens at (at - j.token_retention))
    verifications ← exec env (prune_email_verification_tokens at (at - j.token_retention))
    changes ← exec env (prune_email_change_tokens at (at - j.token_retention))
    sent ← exec env (prune_sent_email_outbox_rows (at - j.sent_email_retention))
    failed ← exec env (prune_failed_email_outbox_rows (at - j.failed_email_retention))
    pure (sessions + resets + verifications + changes + sent + failed)

  -- CleanupJob.Run, with the total that it logs.
  unfoldable pub run : Action ℕ
  unfolding clean_at
  run = do started ← now env; at ← now env; clean_at at
