-- ===== src/Server/Handlers/Login.antt =====
-- Login and logout: loginForm, login and logout of internal/server/auth_handlers.go, and the
-- challenge of internal/server/totp_handlers.go.
use go_spark.Base.{
  Text, codes, Bool, Option, none, some, is_some, [], ◌∷◌, trim_space, or_else, if◌then◌else◌,
}
use go_spark.Schema.{User}
use go_spark.Effect.{Env, Err, Action, ◌>>=◌, handle, invalid_totp_code}
use go_spark.Auth.Sessions
use go_spark.Auth.Sessions.{LoginOutcome, logged_in, totp_required_for, AuthSession}
use go_spark.Auth.Totp.{verify_totp_login}
use go_spark.Server.{Server, Request, Form, Response, TemplateData}
use go_spark.Server.Cookies.{
  session_cookie_name, set_session_cookie, clear_session_cookie, set_totp_pending_cookie,
  clear_totp_pending_cookie, totp_pending_login_from_cookie, TotpPendingLogin,
}
use go_spark.Server.Pages.{
  redirect, new_template_data, render_new, internal_server_error, flash_cookies,
}
use go_spark.Server.Guards.{Handler, safe_redirect_path, with_next, is_invalid_session}
use go_spark.Server.Handlers.{parsed, handle_auth_form_error, again}
use go_spark.Server.Paths

abbrev pub target_after_login : User → Text → Text
target_after_login user next =
    if is_some user.email_verified_at then or_else next Paths.account else Paths.verify_email

module _ (env : Env) (s : Server) where
  unfoldable pub login_form : Handler
  unfolding new_template_data render_new safe_redirect_path
  login_form r =
      render_new s r [] 200 (codes "login.html") (record (new_template_data s r (codes "Sign In")) {
        next = safe_redirect_path s.web (r.query (codes "next"));
      })

  abbrev pub login_done : Request → Text → Bool → LoginOutcome → Action Response
  login_done r next remember (logged_in user session) = do
    c ← set_session_cookie s r env session remember
    redirect (c ∷ []) (target_after_login user next)
  login_done r next remember (totp_required_for user) = do
    c ← set_totp_pending_cookie s r env user.id remember
    redirect (c ∷ []) (with_next s Paths.account_two_factor_challenge next)

  abbrev pub login_failed : Request → Form → Text → Err → Action Response
  login_failed r form next e =
      handle_auth_form_error s r (codes "login.html")
        (record (new_template_data s r (codes "Sign In")) {
          email = trim_space (form.value (codes "email"));
          next = next;
        })
        e

  unfoldable pub login : Handler
  unfolding parsed safe_redirect_path set_session_cookie set_totp_pending_cookie
      handle_auth_form_error new_template_data
  login r = parsed r.form λ form.
      let next = safe_redirect_path s.web (form.value (codes "next")) in
      handle
        (Sessions.login env s.auth (form.value (codes "email")) (form.value (codes "password")))
        (login_done r next (form.has (codes "remember_me"))) (login_failed r form next)

  abbrev signed_out : Request → Action Response
  signed_out r = redirect (clear_session_cookie s r ∷ []) Paths.home

  abbrev logout_failed : Request → Err → Action Response
  logout_failed r e = if is_invalid_session e then signed_out r else internal_server_error s r []

  abbrev end_session : Request → Option Text → Action Response
  end_session r none = signed_out r
  end_session r (some value) =
      handle (Sessions.logout env s.auth value) (λ _. signed_out r) (logout_failed r)

  unfoldable pub logout : Handler
  unfolding clear_session_cookie is_invalid_session internal_server_error
  logout r = end_session r (r.cookie session_cookie_name)

  abbrev challenge_page : Request → Text → TemplateData
  challenge_page r next = record (new_template_data s r (codes "Two-Factor Authentication")) {
    next = next;
  }

  abbrev show_challenge : Request → Option TotpPendingLogin → Action Response
  show_challenge r none = redirect [] Paths.login
  show_challenge r (some pending) =
      render_new s r [] 200 (codes "two_factor_challenge.html")
        (challenge_page r (safe_redirect_path s.web (r.query (codes "next"))))

  unfoldable pub two_factor_challenge_form : Handler
  unfolding totp_pending_login_from_cookie new_template_data render_new safe_redirect_path
  two_factor_challenge_form r = totp_pending_login_from_cookie s r env >>= show_challenge r

  abbrev pub challenge_done : Request → Text → TotpPendingLogin → AuthSession → Action Response
  challenge_done r next pending session = do
    c ← set_session_cookie s r env session pending.remember_me
    redirect (clear_totp_pending_cookie s r ∷ c ∷ []) (or_else next Paths.account)

  -- `errors.Is(err, auth.ErrInvalidTOTPCode)`
  abbrev pub challenge_failed : Request → Text → Err → Action Response
  challenge_failed r next invalid_totp_code =
      again s r (codes "two_factor_challenge.html") (challenge_page r next)
        (codes "That code is incorrect. Try again or use a backup code.") []
  challenge_failed r next _ = internal_server_error s r (flash_cookies s r)

  abbrev pub challenge : Request → Option TotpPendingLogin → Action Response
  challenge r none = redirect [] Paths.login
  challenge r (some pending) = parsed r.form λ form.
      let next = safe_redirect_path s.web (form.value (codes "next")) in
      handle (verify_totp_login env s.auth pending.user_id (form.value (codes "code")))
        (challenge_done r next pending) (challenge_failed r next)

  unfoldable pub two_factor_challenge : Handler
  unfolding totp_pending_login_from_cookie parsed safe_redirect_path set_session_cookie
      clear_totp_pending_cookie new_template_data internal_server_error render_new
  two_factor_challenge r = totp_pending_login_from_cookie s r env >>= challenge r
