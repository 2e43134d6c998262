-- ===== src/AuthStore/Tokens.antt =====
-- The transactions around the one-time tokens and the messages that carry them.
use go_spark.Base.{ℕ, Text, Bool, if◌then◌else◌}
use go_spark.Schema.{User, EmailVerificationToken, PasswordResetToken}
use go_spark.Effect.{
  Env, Action, ◌>>=◌, ◌>>◌, pure, raise, lift, recover, exec, draw, with_tx,
  email_already_registered,
}
use go_spark.Platform.{Platform}
use go_spark.Email.Messages.{Message, MessageOptions, new_email_change_notice_message}
use go_spark.Queries.Users
use go_spark.Queries.Sessions
use go_spark.Queries.Tokens
use go_spark.Queries.Outbox
use go_spark.AuthStore.Accounts.{insert_user, is_unique_violation}

module _ (env : Env) where
  unfoldable pub create_user_with_email_verification :
      Text → Text → Text → ℕ → Message → ℕ → Action User
  create_user_with_email_verification email hash token_hash expires message available = do
    handle ← draw env
    with_tx env do
      user ← insert_user env email hash handle
      exec env (Tokens.create_email_verification_token user.id token_hash expires)
      exec env (Outbox.enqueue_email message available)
      pure user

  unfoldable pub create_email_verification_token : ℕ → Text → ℕ → Action EmailVerificationToken
  create_email_verification_token user hash expires =
      exec env (Tokens.create_email_verification_token user hash expires)

  unfoldable pub resend_email_verification : ℕ → Text → ℕ → Message → ℕ → Action (Unit {0})
  resend_email_verification user hash expires message available = with_tx env do
    exec env (Tokens.create_email_verification_token user hash expires)
    exec env (Outbox.enqueue_email message available)
    pure tt

  unfoldable pub verify_email_by_token_hash : Text → ℕ → Action User
  verify_email_by_token_hash hash at = with_tx env do
    token ← exec env (Tokens.consume_email_verification_token at hash)
    exec env (Users.mark_user_email_verified at token.user_id)

  unfoldable pub get_valid_password_reset_token_by_hash : Text → ℕ → Action PasswordResetToken
  get_valid_password_reset_token_by_hash hash at =
      exec env (Tokens.get_valid_password_reset_token_by_hash hash at)

  unfoldable pub consume_password_reset_token : Text → ℕ → Action PasswordResetToken
  consume_password_reset_token hash at = exec env (Tokens.consume_password_reset_token at hash)

  unfoldable pub request_password_reset : ℕ → Text → ℕ → Message → ℕ → Action (Unit {0})
  request_password_reset user hash expires message available = with_tx env do
    exec env (Tokens.create_password_reset_token user hash expires)
    exec env (Outbox.enqueue_email message available)
    pure tt

  unfoldable pub request_email_change : ℕ → Text → Text → ℕ → Message → ℕ → Action (Unit {0})
  request_email_change user new_email hash expires message available = with_tx env do
    exec env (Tokens.create_email_change_token user new_email hash expires)
    exec env (Outbox.enqueue_email message available)
    pure tt

  module _ (p : Platform) (opts : MessageOptions) (notice : Bool) where
    -- The notice to the old address, if the service sends one.
    abbrev pub send_notice : Text → ℕ → Action (Unit {0})
    send_notice old_email at =
        if notice
        then (do
          message ← lift (new_email_change_notice_message p opts old_email)
          exec env (Outbox.enqueue_email message at)
          pure tt)
        else pure tt

    unfoldable pub apply_email_change : ℕ → Text → ℕ → Action User
    apply_email_change id new_email at = do
      old ← exec env (Users.get_user_by_id id)
      user ←
          recover is_unique_violation (raise email_already_registered)
            (exec env (Users.update_user_email new_email at id))
      exec env (Sessions.delete_sessions_by_user_id id)
      send_notice old.email at
      pure user

    unfoldable pub confirm_email_change : Text → ℕ → Action User
    unfolding apply_email_change
    confirm_email_change hash at = with_tx env do
      token ← exec env (Tokens.consume_email_change_token at hash)
      apply_email_change token.user_id token.new_email at
