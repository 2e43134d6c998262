-- ===== src/Server/Handlers/Recovery.antt =====
-- Forgotten passwords, in internal/server/auth_handlers.go: forgotPasswordForm, forgotPassword,
-- resetPasswordForm and resetPassword.
use go_spark.Base.{Text, codes, true, [], ◌∷◌, ◌++◌, trim_space, is_empty, if◌then◌else◌}
use go_spark.Effect.{
  Env, Err, Action, ◌>>=◌, handle, invalid_email, invalid_password, password_too_long,
  invalid_password_reset_token,
}
use go_spark.Auth.Passwords
use go_spark.Server.{Server, Request, Response, TemplateData, page}
use go_spark.Server.Cookies.{clear_reset_cookie, set_reset_cookie, reset_token_from_cookie}
use go_spark.Server.Flash.{set_flash, flash_success, flash_error}
use go_spark.Server.Decimal.{decimal}
use go_spark.Server.Pages.{
  respond, redirect, new_template_data, render_new, internal_server_error, flash_cookies,
}
use go_spark.Server.Guards.{Handler}
use go_spark.Server.Handlers.{
  parsed, Faults, check_details, at_least, at_most, validate_password_pair, again,
}
use go_spark.Server.Paths

module _ (env : Env) (s : Server) where
  unfoldable pub forgot_password_form : Handler
  unfolding new_template_data render_new
  forgot_password_form r =
      render_new s r [] 200 (codes "forgot_password.html")
        (new_template_data s r (codes "Forgot Password"))

  abbrev forgot_failed : Request → Text → Err → Action Response
  forgot_failed r email invalid_email =
      again s r (codes "forgot_password.html")
        (record (new_template_data s r (codes "Forgot Password")) { email = trim_space email })
        check_details ((codes "email", codes "Enter a valid email address.") ∷ [])
  forgot_failed r email _ =
      redirect
        (set_flash s r (
            flash_error
              (codes "We couldn't send a password reset email right now. Please try again."))
          ∷ [])
        Paths.forgot_password

  unfoldable pub forgot_password : Handler
  unfolding parsed set_flash new_template_data render_new
  forgot_password r = parsed r.form λ form.
      let email = form.value (codes "email") in
      handle (Passwords.request_password_reset env s.auth email)
        (λ _.
          redirect
            (set_flash s r (
                flash_success
                  (codes "If an account exists for that email, we sent a password reset link."))
              ∷ [])
            Paths.forgot_password)
        (forgot_failed r email)

  abbrev reset_data : Request → TemplateData
  reset_data r = new_template_data s r (codes "Reset Password")

  -- The page of a link that is no good: the cookie is cleared.
  abbrev bad_link : Request → Action Response
  bad_link r = respond (flash_cookies s r ++ clear_reset_cookie s r ∷ []) (
      page 400 (codes "reset_password.html") (record (reset_data r) {
        error = codes "This password reset link is invalid or has expired.";
        reset_token_invalid = true;
      }))

  abbrev check_failed : Request → Err → Action Response
  check_failed r invalid_password_reset_token = bad_link r
  check_failed r _ = internal_server_error s r (flash_cookies s r)

  abbrev keep_token : Request → Text → Action Response
  keep_token r token = do
    c ← set_reset_cookie s r env token
    redirect (flash_cookies s r ++ c ∷ []) Paths.reset_password

  unfoldable pub reset_password_form : Handler
  unfolding new_template_data render_new internal_server_error clear_reset_cookie set_reset_cookie
      reset_token_from_cookie
  reset_password_form r =
      let token = trim_space (r.query (codes "token")) in
      if is_empty token
      then handle (Passwords.validate_password_reset_token env s.auth (reset_token_from_cookie r))
          (λ _. render_new s r [] 200 (codes "reset_password.html") (reset_data r)) (check_failed r)
      else handle (Passwords.validate_password_reset_token env s.auth token)
          (λ _. keep_token r token) (check_failed r)

  abbrev reset_failed : Request → Err → Action Response
  reset_failed r invalid_password_reset_token = bad_link r
  reset_failed r invalid_password =
      again s r (codes "reset_password.html") (reset_data r) check_details
        ((codes "new_password", at_least (reset_data r).password_min_length) ∷ [])
  reset_failed r password_too_long =
      again s r (codes "reset_password.html") (reset_data r) check_details
        ((codes "new_password", at_most) ∷ [])
  reset_failed r _ = internal_server_error s r (flash_cookies s r)

  abbrev reset_done : Request → Action Response
  reset_done r =
      redirect
        (clear_reset_cookie s r
          ∷ set_flash s r (
              flash_success
                (codes "Your password has been changed. Sign in with your new password."))
          ∷ [])
        Paths.login

  abbrev reset_checked : Request → Text → Faults → Action Response
  reset_checked r new [] =
      handle (Passwords.reset_password_with_token env s.auth (reset_token_from_cookie r) new)
        (λ _. reset_done r) (reset_failed r)
  reset_checked r new (f ∷ faults) =
      again s r (codes "reset_password.html") (reset_data r) check_details (f ∷ faults)

  unfoldable pub reset_password : Handler
  unfolding parsed validate_password_pair new_template_data render_new internal_server_error
      clear_reset_cookie set_flash reset_token_from_cookie decimal
  reset_password r = parsed r.form λ form.
      let new = form.value (codes "new_password") in
      reset_checked r new (
        validate_password_pair s.password_min_length new (form.value (codes "confirm_password"))
          (codes "new_password") (codes "confirm_password"))
