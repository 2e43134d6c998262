-- ===== src/Validity/Rules.antt =====
-- The rules for statements and well-formed databases, as one set.
use go_spark.Queries.Reads.{reads}
use go_spark.Effect.Invariants.{Maintains-of_Reads}
use go_spark.Validity.Users.{
  create_user-Valid, update_user_password_hash-Valid, mark_user_email_verified-Valid,
  update_user_email-Valid, delete_user_by_id-Valid,
}
use go_spark.Validity.Sessions.{
  create_session-Valid, delete_session_by_token_hash-Valid, delete_expired_sessions-Valid,
  delete_sessions_by_user_id-Valid, delete_other_sessions-Valid, delete_session_by_id-Valid,
}
use go_spark.Validity.Tokens.{
  create_email_verification_token-Valid, consume_email_verification_token-Valid,
  prune_email_verification_tokens-Valid, create_password_reset_token-Valid,
  consume_password_reset_token-Valid, prune_password_reset_tokens-Valid,
  create_email_change_token-Valid, consume_email_change_token-Valid,
  prune_email_change_tokens-Valid,
}
use go_spark.Validity.Outbox.{
  enqueue_email-Valid, claim_pending_emails-Valid, mark_email_sent-Valid, mark_email_failed-Valid,
  mark_email_failed_permanently-Valid, prune_sent_email_outbox_rows-Valid,
  prune_failed_email_outbox_rows-Valid,
}
use go_spark.Validity.Totp.{
  claim_totp_counter-Valid, enable_totp-Valid, delete_totp_by_user_id-Valid,
  upsert_pending_totp-Valid, create_totp_backup_code-Valid,
  delete_totp_backup_codes_by_user_id-Valid, consume_totp_backup_code-Valid,
}
use go_spark.Validity.Projects.{create_project-Valid, delete_project-Valid}

pub ruleset valid_rules = (
  Maintains-of_Reads, reads, create_user-Valid, update_user_password_hash-Valid,
  mark_user_email_verified-Valid, update_user_email-Valid, delete_user_by_id-Valid,
  create_session-Valid, delete_session_by_token_hash-Valid, delete_expired_sessions-Valid,
  delete_sessions_by_user_id-Valid, delete_other_sessions-Valid, delete_session_by_id-Valid,
  create_email_verification_token-Valid, consume_email_verification_token-Valid,
  prune_email_verification_tokens-Valid, create_password_reset_token-Valid,
  consume_password_reset_token-Valid, prune_password_reset_tokens-Valid,
  create_email_change_token-Valid, consume_email_change_token-Valid,
  prune_email_change_tokens-Valid, enqueue_email-Valid, claim_pending_emails-Valid,
  mark_email_sent-Valid, mark_email_failed-Valid, mark_email_failed_permanently-Valid,
  prune_sent_email_outbox_rows-Valid, prune_failed_email_outbox_rows-Valid,
  claim_totp_counter-Valid, enable_totp-Valid, delete_totp_by_user_id-Valid,
  upsert_pending_totp-Valid, create_totp_backup_code-Valid,
  delete_totp_backup_codes_by_user_id-Valid, consume_totp_backup_code-Valid, create_project-Valid,
  delete_project-Valid,
)
