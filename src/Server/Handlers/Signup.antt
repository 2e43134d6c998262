-- ===== src/Server/Handlers/Signup.antt =====
-- Registration and the links in mails, in internal/server/auth_handlers.go: registerForm, register,
-- resendVerificationForm, resendVerificationPublic, resendVerification, confirmEmail,
-- confirmEmailChange and verifyEmail.
use go_spark.Base.{
  ℕ, Text, codes, false, Option, none, some, [], ◌∷◌, ◌++◌, trim_space, is_empty, if◌then◌else◌,
}
use go_spark.Schema.{User}
use go_spark.Effect.{
  Env, Err, Action, handle, invalid_email, invalid_verification_token, invalid_email_change_token,
  email_already_registered,
}
use go_spark.Auth.Accounts
use go_spark.Auth.EmailChange
use go_spark.Server.{Server, Request, Response, TemplateData, page}
use go_spark.Server.Cookies.{clear_session_cookie}
use go_spark.Server.Flash.{set_flash, flash_success, flash_error}
use go_spark.Server.Pages.{
  respond, redirect, new_template_data, render_new, internal_server_error, flash_cookies,
}
use go_spark.Server.Guards.{Handler}
use go_spark.Server.Handlers.{
  parsed, signed_in, Faults, check_details, validate_password_pair, handle_auth_form_error, again,
}
use go_spark.Server.Paths

-- validateRegistrationForm
unfoldable pub validate_registration_form : ℕ → Text → Text → Text → Faults
unfolding validate_password_pair
validate_registration_form min email password confirm =
    let pair =
      validate_password_pair min password confirm (codes "password") (codes "confirm_password") in
    if is_empty (trim_space email)
    then (codes "email", codes "Enter your email address.") ∷ pair
    else pair

-- confirmEmailToken's error handlers: a status and a message, if the error has one.
unfoldable pub confirm_email_fault : Err → Option (ℕ × Text)
confirm_email_fault invalid_verification_token =
    some (400, codes "This confirmation link is invalid or has expired.")
confirm_email_fault _ = none

unfoldable pub confirm_email_change_fault : Err → Option (ℕ × Text)
confirm_email_change_fault invalid_email_change_token =
    some (400, codes "This email change link is invalid or has expired.")
confirm_email_change_fault email_already_registered =
    some (409, codes "This email address is already used by another account.")
confirm_email_change_fault _ = none

module _ (env : Env) (s : Server) where
  unfoldable pub register_form : Handler
  unfolding new_template_data render_new
  register_form r =
      render_new s r [] 200 (codes "register.html") (new_template_data s r (codes "Create Account"))

  abbrev register_data : Request → Text → TemplateData
  register_data r email = record (new_template_data s r (codes "Create Account")) {
    email = trim_space email;
  }

  abbrev registered : Request → Action Response
  registered r =
      redirect
        (set_flash s r (
            flash_success (
              codes
                "If that email isn't already registered, we've sent a verification link. Check your inbox to activate your account, then sign in."))
          ∷ [])
        Paths.login

  abbrev register_checked : Request → Text → Text → Faults → Action Response
  register_checked r email password [] =
      handle (Accounts.register env s.auth email password) (λ _. registered r)
        (handle_auth_form_error s r (codes "register.html") (register_data r email))
  register_checked r email password (f ∷ faults) =
      again s r (codes "register.html") (register_data r email) check_details (f ∷ faults)

  unfoldable pub register : Handler
  unfolding parsed validate_registration_form handle_auth_form_error set_flash new_template_data
  register r = parsed r.form λ form.
      let email = form.value (codes "email") in
      let password = form.value (codes "password") in
      register_checked r email password (
        validate_registration_form s.password_min_length email password
          (form.value (codes "confirm_password")))

  unfoldable pub resend_verification_form : Handler
  unfolding new_template_data render_new
  resend_verification_form r =
      render_new s r [] 200 (codes "resend_verification.html")
        (new_template_data s r (codes "Resend Verification Email"))

  abbrev resend_failed : Request → Text → Err → Action Response
  resend_failed r email invalid_email =
      again s r (codes "resend_verification.html")
        (record (new_template_data s r (codes "Resend Verification Email")) {
          email = trim_space email;
        })
        check_details ((codes "email", codes "Enter a valid email address.") ∷ [])
  resend_failed r email _ =
      redirect
        (set_flash s r (
            flash_error
              (codes "We couldn't send a verification email right now. Please try again."))
          ∷ [])
        Paths.resend_verification

  unfoldable pub resend_verification_public : Handler
  unfolding parsed set_flash new_template_data render_new
  resend_verification_public r = parsed r.form λ form.
      let email = form.value (codes "email") in
      handle (Accounts.resend_verification_email_by_address env s.auth email)
        (λ _.
          redirect
            (set_flash s r (
                flash_success (codes "If that email can be verified, we sent a confirmation link."))
              ∷ [])
            Paths.resend_verification)
        (resend_failed r email)

  unfoldable pub resend_verification : Handler
  unfolding signed_in set_flash
  resend_verification r = signed_in r.user λ user.
      handle (Accounts.resend_verification_email env s.auth user.id)
        (λ _.
          redirect (set_flash s r (flash_success (codes "We sent a new verification email.")) ∷ [])
            Paths.verify_email)
        (λ _.
          redirect
            (set_flash s r (
                flash_error
                  (codes "We couldn't send a verification email right now. Please try again."))
              ∷ [])
            Paths.verify_email)

  -- confirmEmailToken, after an error.
  abbrev confirm_failed : Request → Text → TemplateData → Option (ℕ × Text) → Action Response
  confirm_failed r template d none = internal_server_error s r (flash_cookies s r)
  confirm_failed r template d (some (status, error)) =
      render_new s r [] status template (record d { error = error })

  unfoldable pub confirm_email_token :
      Request
      → Text
      → TemplateData
      → Action User
      → (Err → Option (ℕ × Text))
      → Action Response
      → Action Response
  unfolding render_new internal_server_error
  confirm_email_token r template d confirm fault done =
      handle confirm (λ _. done) (λ e. confirm_failed r template d (fault e))

  unfoldable pub confirm_email : Handler
  unfolding confirm_email_token confirm_email_fault new_template_data render_new
  confirm_email r =
      let d = new_template_data s r (codes "Confirm Email") in
      confirm_email_token r (codes "confirm_email.html") d
        (Accounts.verify_email env s.auth (r.query (codes "token"))) confirm_email_fault
        (render_new s r [] 200 (codes "confirm_email.html") d)

  unfoldable pub confirm_email_change : Handler
  unfolding confirm_email_token confirm_email_change_fault new_template_data clear_session_cookie
  confirm_email_change r =
      let d = new_template_data s r (codes "Confirm Email Change") in
      confirm_email_token r (codes "confirm_email_change.html") d
        (EmailChange.confirm_email_change env s.auth (r.query (codes "token")))
        confirm_email_change_fault
        (respond (flash_cookies s r ++ clear_session_cookie s r ∷ []) (
          page 200 (codes "confirm_email_change.html")
            (record d { authenticated = false; verified = false; user = none })))

  unfoldable pub verify_email : Handler
  unfolding new_template_data render_new
  verify_email r =
      let d = new_template_data s r (codes "Verify Email") in
      if d.verified
      then redirect (flash_cookies s r) Paths.account
      else render_new s r [] 200 (codes "verify_email.html") d
