-- ===== src/Server/Pages.antt =====
-- The pages: newTemplateData, renderStatus and internalServerError of
-- internal/server/auth_handlers.go and server.go. A page stands for the execution of its template.
use go_spark.Base.{
  ℕ, ◌==◌, Text, codes, Bool, false, Option, none, some, is_some, List, [], ◌++◌, if◌then◌else◌,
}
use go_spark.Schema.{User}
use go_spark.Effect.{Action, pure}
use go_spark.Server.{
  Server, Request, Cookie, Reply, see_other, page, Response, TemplateData, FlashMessage,
}
use go_spark.Server.Flash.{pop_flash}

abbrev pub respond : List Cookie → Reply → Action Response
respond cookies reply = pure (record { cookies = cookies; reply = reply })

-- http.Redirect with 303.
abbrev pub redirect : List Cookie → Text → Action Response
redirect cookies target = respond cookies (see_other target)

abbrev is_verified : Option User → Bool
is_verified none = false
is_verified (some u) = is_some u.email_verified_at

module _ (s : Server) (r : Request) where
  abbrev data_with_flash : Text → List Cookie × Option FlashMessage → TemplateData
  data_with_flash title (cookies, flash) = record {
    title = title;
    flash = flash;
    error = [];
    field_errors = [];
    email = [];
    next = [];
    reset_token_invalid = false;
    authenticated = is_some r.user;
    verified = is_verified r.user;
    user = r.user;
    password_min_length = if s.password_min_length == 0 then 12 else s.password_min_length;
    managed_sessions = [];
    projects = [];
    totp_enabled = false;
    totp_pending = false;
    totp_secret = [];
    totp_otp_auth_uri = [];
    totp_backup_codes = [];
    totp_backup_codes_remaining = 0;
  }

  -- The data of a page, and the cookie that ends the flash message which it shows.
  unfoldable pub new_template_data : Text → TemplateData
  unfolding pop_flash
  new_template_data title = data_with_flash title (pop_flash s r)

  abbrev pub flash_cookies : List Cookie
  flash_cookies = (pop_flash s r).0

  -- A page with new data, after the cookies that were set before.
  unfoldable pub render_new : List Cookie → ℕ → Text → TemplateData → Action Response
  render_new cookies status name data' = respond (cookies ++ flash_cookies) (page status name data')

  unfoldable pub internal_server_error : List Cookie → Action Response
  unfolding render_new new_template_data
  internal_server_error cookies =
      render_new cookies 500 (codes "500.html") (new_template_data (codes "Something went wrong"))
