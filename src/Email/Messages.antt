-- ===== src/Email/Messages.antt =====
-- The transactional messages of internal/email/email.go.
use go_spark.Base.{
  Text, codes, text_eq, not, ◌&&◌, Option, none, some, if◌then◌else◌, trim_space, is_empty,
}
use go_spark.Effect.{Result, ok, err, message_failure}
use go_spark.Platform.{Platform, Url}

pub record Message : Type 0 where
  pub from : Text
  pub to : Text
  pub subject : Text
  pub text_body : Text
  pub html_body : Text

pub record MessageOptions : Type 0 where
  pub app_base_url : Text
  pub from : Text

-- Errors of this file carry a text only, so they are one error here.
infixl 5 ◌>>=◌
abbrev ◌>>=◌ : {A B : Type 0} → Result A → (A → Result B) → Result B
ok a >>= f = f a
err e >>= f = err e

abbrev or_fail : {A : Type 0} → Option A → Result A
or_fail none = err message_failure
or_fail (some a) = ok a

module _ (p : Platform) where
  unfoldable pub normalize_address : Text → Result Text
  normalize_address address = do
    parsed ← or_fail (p.parse_address (trim_space address))
    ok parsed.text

  abbrev pub is_http : Url → Result Url
  is_http u =
      if not (text_eq u.scheme (codes "http")) && not (text_eq u.scheme (codes "https"))
      then err message_failure
      else if is_empty u.host
      then err message_failure
      else ok u

  unfoldable pub token_url : Text → Text → Text → Result Text
  token_url app_base_url path token =
      let t = trim_space token in
      if is_empty t then err message_failure else do
        parsed ← or_fail (p.parse_url (trim_space app_base_url))
        base ← is_http parsed
        ok (p.link_with_token base path t)

  unfoldable pub render_email_templates : Text → Text → Result (Text × Text × Text)
  render_email_templates name link = do
    out ← or_fail (p.render name link)
    ok (trim_space out.0, trim_space out.1, trim_space out.2)

  abbrev assemble : Text → Text → Text × Text × Text → Message
  assemble from to (subject, text, html) = record {
    from = from;
    to = to;
    subject = subject;
    text_body = text;
    html_body = html;
  }

  -- The three messages with a link differ in the path of the link and in their templates.
  abbrev message_with_link : Text → Text → MessageOptions → Text → Text → Result Message
  message_with_link path template opts to token = do
    from ← normalize_address opts.from
    recipient ← normalize_address to
    link ← token_url opts.app_base_url path token
    parts ← render_email_templates template link
    ok (assemble from recipient parts)

  unfoldable pub new_account_confirmation_message : MessageOptions → Text → Text → Result Message
  unfolding normalize_address
  new_account_confirmation_message =
      message_with_link (codes "account/confirm-email") (codes "account_confirmation")

  unfoldable pub new_password_reset_message : MessageOptions → Text → Text → Result Message
  unfolding normalize_address
  new_password_reset_message =
      message_with_link (codes "account/reset-password") (codes "password_reset")

  unfoldable pub new_email_change_message : MessageOptions → Text → Text → Result Message
  unfolding normalize_address
  new_email_change_message =
      message_with_link (codes "account/confirm-email-change") (codes "email_change")

  unfoldable pub new_email_change_notice_message : MessageOptions → Text → Result Message
  unfolding normalize_address
  new_email_change_notice_message opts to = do
    from ← normalize_address opts.from
    recipient ← normalize_address to
    parts ← render_email_templates (codes "email_change_notice") (codes "")
    ok (assemble from recipient parts)
