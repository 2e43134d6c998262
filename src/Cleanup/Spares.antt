-- ===== src/Cleanup/Spares.antt =====
-- What a pass of the cleanup (internal/jobs/cleanup.go) leaves.
use go_spark.Base.{
  ℕ, suc, ◌≡◌, refl, ◌∙◌, Bool, not, ◌&&◌, ◌||◌, is_some, ltb, keep_if, keep_if-delete_if, arith,
}
use go_spark.Schema.{Token, EmailChangeToken, EmailOutbox, sent, failed, Db}
use go_spark.Effect.{Env, World, tick, ◌>>=◌}
use go_spark.Effect.Invariants.{Keeps, Maintains, keeps_rules}
use go_spark.Queries.Sessions.{is_active, delete_expired_sessions}
use go_spark.Queries.Tokens.{
  prune_password_reset_tokens, prune_email_verification_tokens, prune_email_change_tokens,
}
use go_spark.Queries.Outbox.{
  is_status, prune_sent_email_outbox_rows, prune_failed_email_outbox_rows,
}
use go_spark.Cleanup.{CleanupJob, clean_at, run}

-- A token that can still be used at a time, and a mail that is still to be sent.
abbrev pub is_usable : ℕ → Token → Bool
is_usable at t = not (is_some t.consumed_at) && ltb at t.expires_at

abbrev pub is_open : EmailOutbox → Bool
is_open r = not (is_status r.status sent || is_status r.status failed)

-- The two databases have the same active sessions, usable tokens and open mails, in the same
-- order, and the other tables are the same.
abbrev pub Spares : ℕ → Db → Db → Type 0
Spares at d d' =
    (keep_if (is_active at) d'.sessions ≡ keep_if (is_active at) d.sessions)
    × (keep_if (is_usable at) d'.password_reset_tokens
        ≡ keep_if (is_usable at) d.password_reset_tokens)
    × (keep_if (is_usable at) d'.email_verification_tokens
        ≡ keep_if (is_usable at) d.email_verification_tokens)
    × (keep_if (λ (t : EmailChangeToken). is_usable at t.token) d'.email_change_tokens
        ≡ keep_if (λ (t : EmailChangeToken). is_usable at t.token) d.email_change_tokens)
    × (keep_if is_open d'.email_outbox ≡ keep_if is_open d.email_outbox)
    × ((d'.users ≡ d.users)
        × (d'.user_totp ≡ d.user_totp)
        × (d'.totp_backup_codes ≡ d.totp_backup_codes)
        × (d'.webauthn_credentials ≡ d.webauthn_credentials)
        × (d'.projects ≡ d.projects))

module _ (at : ℕ) (d : Db) where
  sessions-Spares : Maintains (Spares at d) (delete_expired_sessions at)
  unfolding delete_expired_sessions
  sessions-Spares = record {
    at = λ t x (a, b, c, e, f, rest). (
      keep_if-delete_if _ (is_active at) x.sessions (λ r h. ground (arith, h)) ∙ a,
      b,
      c,
      e,
      f,
      rest,
    );
  }

  resets-Spares : (before : ℕ) → Maintains (Spares at d) (prune_password_reset_tokens at before)
  unfolding prune_password_reset_tokens
  resets-Spares before = record {
    at = λ t x (a, b, c, e, f, rest). (
      a,
      keep_if-delete_if _ (is_usable at) x.password_reset_tokens (λ r h. ground (arith, h)) ∙ b,
      c,
      e,
      f,
      rest,
    );
  }

  verifications-Spares :
      (before : ℕ) → Maintains (Spares at d) (prune_email_verification_tokens at before)
  unfolding prune_email_verification_tokens
  verifications-Spares before = record {
    at = λ t x (a, b, c, e, f, rest). (
      a,
      b,
      keep_if-delete_if _ (is_usable at) x.email_verification_tokens (λ r h. ground (arith, h)) ∙ c,
      e,
      f,
      rest,
    );
  }

  changes-Spares : (before : ℕ) → Maintains (Spares at d) (prune_email_change_tokens at before)
  unfolding prune_email_change_tokens
  changes-Spares before = record {
    at = λ t x (a, b, c, e, f, rest). (
      a,
      b,
      c,
      keep_if-delete_if _ (λ (t : EmailChangeToken). is_usable at t.token) x.email_change_tokens
            (λ r h. ground (arith, h))
          ∙ e,
      f,
      rest,
    );
  }

  sent-Spares : (before : ℕ) → Maintains (Spares at d) (prune_sent_email_outbox_rows before)
  unfolding prune_sent_email_outbox_rows
  sent-Spares before = record {
    at = λ t x (a, b, c, e, f, rest). (
      a,
      b,
      c,
      e,
      keep_if-delete_if _ is_open x.email_outbox (λ r h. ground (arith, h)) ∙ f,
      rest,
    );
  }

  failed-Spares : (before : ℕ) → Maintains (Spares at d) (prune_failed_email_outbox_rows before)
  unfolding prune_failed_email_outbox_rows
  failed-Spares before = record {
    at = λ t x (a, b, c, e, f, rest). (
      a,
      b,
      c,
      e,
      keep_if-delete_if _ is_open x.email_outbox (λ r h. ground (arith, h)) ∙ f,
      rest,
    );
  }

  ruleset spares_rules = (
    sessions-Spares, resets-Spares, verifications-Spares, changes-Spares, sent-Spares,
    failed-Spares,
  )

module _ (env : Env) (j : CleanupJob) where
  clean_at-Spares : (at : ℕ) (d : Db) → Keeps (Spares at d) (clean_at env j at)
  unfolding clean_at
  clean_at-Spares at d = search (keeps_rules, spares_rules) depth 20

  -- A pass of the cleanup, also one that fails on the way, leaves every active session, every
  -- token that is neither consumed nor expired at its time, every mail that is still to be sent,
  -- and all other tables.
  pub run-Spares : (w : World) → Spares (env.clock (suc w.step)) w.db (run env j w).1.db
  unfolding run ◌>>=◌
  run-Spares w =
      (clean_at-Spares (env.clock (suc w.step)) w.db).at (tick (tick w))
        (refl, refl, refl, refl, refl, (refl, refl, refl, refl, refl))
