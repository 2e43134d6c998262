-- ===== src/Server/Handlers/Account.antt =====
-- The account pages, in internal/server/auth_handlers.go: account, revokeSession,
-- revokeOtherSessions, changePassword, changeEmail and deleteAccount with their forms.
use go_spark.Base.{
  ℕ, ◌==◌, Text, codes, Option, none, some, List, [], ◌∷◌, ◌++◌, trim_space, if◌then◌else◌,
}
use go_spark.Schema.{User}
use go_spark.Effect.{
  Env, Err, Action, handle, invalid_email, invalid_password, password_too_long, password_unchanged,
  email_unchanged, current_password_incorrect, invalid_session, invalid_session_target,
  cannot_revoke_current_session,
}
use go_spark.Auth.Sessions
use go_spark.Auth.Sessions.{ManagedSession}
use go_spark.Auth.Passwords
use go_spark.Auth.EmailChange
use go_spark.Auth.Accounts
use go_spark.Server.{Server, Request, Response, TemplateData, http_error}
use go_spark.Server.Cookies.{clear_session_cookie, session_token_from_cookie}
use go_spark.Server.Flash.{set_flash, flash_success}
use go_spark.Server.Decimal.{decimal, parse_int}
use go_spark.Server.Pages.{
  respond, redirect, new_template_data, render_new, internal_server_error, flash_cookies,
}
use go_spark.Server.Guards.{Handler, is_invalid_session}
use go_spark.Server.Handlers.{
  parsed, signed_in, Faults, check_details, at_least, at_most, validate_password_pair, again,
  again_or_fail,
}
use go_spark.Server.Paths

abbrev positive : Option ℕ → Option ℕ
positive none = none
positive (some n) = if n == 0 then none else some n

-- sessionIDFromRequest
unfoldable pub session_id_from_request : Text → Option ℕ
unfolding parse_int
session_id_from_request raw = positive (parse_int (trim_space raw))

unfoldable pub change_password_faults : ℕ → Err → Option Faults
unfolding decimal
change_password_faults min current_password_incorrect =
    some ((codes "current_password", codes "Current password is not correct.") ∷ [])
change_password_faults min invalid_password = some ((codes "new_password", at_least min) ∷ [])
change_password_faults min password_too_long = some ((codes "new_password", at_most) ∷ [])
change_password_faults min password_unchanged =
    some ((codes "new_password", codes "Choose a different password.") ∷ [])
change_password_faults min _ = none

unfoldable pub change_email_faults : Err → Option Faults
change_email_faults current_password_incorrect =
    some ((codes "current_password", codes "Current password is not correct.") ∷ [])
change_email_faults invalid_email =
    some ((codes "email", codes "Enter a valid email address.") ∷ [])
change_email_faults email_unchanged =
    some ((codes "email", codes "Choose a different email address.") ∷ [])
change_email_faults _ = none

unfoldable pub delete_account_faults : Err → Option Faults
delete_account_faults current_password_incorrect =
    some ((codes "current_password", codes "Current password is not correct.") ∷ [])
delete_account_faults _ = none

-- A field that must not be empty.
abbrev required : Text → Text → Text → Faults
required [] field message = (field, message) ∷ []
required (c ∷ v) field message = []

module _ (env : Env) (s : Server) where
  abbrev expired : Request → Action Response
  expired r = redirect (flash_cookies s r ++ clear_session_cookie s r ∷ []) Paths.login

  abbrev list_failed : Request → Err → Action Response
  list_failed r e =
      if is_invalid_session e then expired r else internal_server_error s r (flash_cookies s r)

  abbrev listed : Request → ℕ → TemplateData → List ManagedSession → Action Response
  listed r status d sessions =
      render_new s r [] status (codes "account.html") (record d { managed_sessions = sessions })

  abbrev listed_for : Request → ℕ → TemplateData → Option User → Action Response
  listed_for r status d none = respond (flash_cookies s r) (http_error 401)
  listed_for r status d (some user) =
      handle (Sessions.list_managed_sessions env s.auth user.id (session_token_from_cookie r))
        (listed r status d) (list_failed r)

  -- populateAccountSessions with data that took the flash message, and the page.
  unfoldable pub account_page : Request → ℕ → TemplateData → Action Response
  unfolding clear_session_cookie is_invalid_session internal_server_error render_new
      session_token_from_cookie
  account_page r status d = listed_for r status d r.user

  unfoldable pub account : Handler
  unfolding account_page new_template_data
  account r = account_page r 200 (new_template_data s r (codes "Account"))

  abbrev account_error : Request → Text → Action Response
  account_error r error =
      account_page r 422 (record (new_template_data s r (codes "Account")) { error = error })

  abbrev revoke_failed : Request → Err → Action Response
  revoke_failed r invalid_session = expired r
  revoke_failed r cannot_revoke_current_session =
      account_error r
        (codes "You cannot revoke your current session. Use Sign out for this device.")
  revoke_failed r invalid_session_target =
      account_error r (codes "The selected session is no longer available.")
  revoke_failed r _ = internal_server_error s r (flash_cookies s r)

  abbrev revoke_target : Request → User → Option ℕ → Action Response
  revoke_target r user none = account_error r (codes "Select a valid session to revoke.")
  revoke_target r user (some id) =
      handle (Sessions.revoke_session_by_id env s.auth user.id (session_token_from_cookie r) id)
        (λ _.
          redirect (set_flash s r (flash_success (codes "Session revoked.")) ∷ []) Paths.account)
        (revoke_failed r)

  unfoldable pub revoke_session : Handler
  unfolding signed_in parsed session_id_from_request account_page new_template_data set_flash
      internal_server_error clear_session_cookie session_token_from_cookie
  revoke_session r = signed_in r.user λ user.
      parsed r.form
        λ form. revoke_target r user (session_id_from_request (form.value (codes "session_id")))

  abbrev revoke_others_failed : Request → Err → Action Response
  revoke_others_failed r e =
      if is_invalid_session e
      then redirect (clear_session_cookie s r ∷ []) Paths.login
      else internal_server_error s r []

  unfoldable pub revoke_other_sessions : Handler
  unfolding signed_in is_invalid_session clear_session_cookie internal_server_error set_flash
      session_token_from_cookie
  revoke_other_sessions r = signed_in r.user λ user.
      handle (Sessions.revoke_other_sessions env s.auth user.id (session_token_from_cookie r))
        (λ _.
          redirect (set_flash s r (flash_success (codes "Signed out other sessions.")) ∷ [])
            Paths.account)
        (revoke_others_failed r)

  abbrev password_data : Request → TemplateData
  password_data r = new_template_data s r (codes "Change Password")

  unfoldable pub change_password_form : Handler
  unfolding new_template_data render_new
  change_password_form r = render_new s r [] 200 (codes "change_password.html") (password_data r)

  abbrev password_changed : Request → Action Response
  password_changed r =
      redirect
        (clear_session_cookie s r
          ∷ set_flash s r (
              flash_success
                (codes "Your password has been changed. Sign in with your new password."))
          ∷ [])
        Paths.login

  abbrev change_password_checked : Request → User → Text → Text → Faults → Action Response
  change_password_checked r user current new [] =
      handle (Passwords.change_password env s.auth user.id current new) (λ _. password_changed r)
        λ e.
          again_or_fail s r (codes "change_password.html") (password_data r)
            (change_password_faults (password_data r).password_min_length e)
  change_password_checked r user current new (f ∷ faults) =
      again s r (codes "change_password.html") (password_data r) check_details (f ∷ faults)

  unfoldable pub change_password : Handler
  unfolding signed_in parsed validate_password_pair change_password_faults new_template_data
      clear_session_cookie set_flash render_new internal_server_error
  change_password r = signed_in r.user λ user. parsed r.form λ form.
      let current = form.value (codes "current_password") in
      let new = form.value (codes "new_password") in
      change_password_checked r user current new (
        required current (codes "current_password") (codes "Enter your current password.")
        ++ validate_password_pair s.password_min_length new (form.value (codes "confirm_password"))
            (codes "new_password") (codes "confirm_password"))

  abbrev email_data : Request → Text → TemplateData
  email_data r email = record (new_template_data s r (codes "Change Email")) {
    email = trim_space email;
  }

  unfoldable pub change_email_form : Handler
  unfolding new_template_data render_new
  change_email_form r =
      render_new s r [] 200 (codes "change_email.html")
        (new_template_data s r (codes "Change Email"))

  abbrev email_requested : Request → Action Response
  email_requested r =
      redirect
        (set_flash s r
            (flash_success (codes "Check your new email address for a verification link."))
          ∷ [])
        Paths.account

  abbrev change_email_checked : Request → User → Text → Text → Faults → Action Response
  change_email_checked r user email current [] =
      handle (EmailChange.request_email_change env s.auth user.id current email)
        (λ _. email_requested r)
        λ e.
          again_or_fail s r (codes "change_email.html") (email_data r email) (change_email_faults e)
  change_email_checked r user email current (f ∷ faults) =
      again s r (codes "change_email.html") (email_data r email) check_details (f ∷ faults)

  unfoldable pub change_email : Handler
  unfolding signed_in parsed change_email_faults new_template_data set_flash render_new
      internal_server_error
  change_email r = signed_in r.user λ user. parsed r.form λ form.
      let email = form.value (codes "email") in
      let current = form.value (codes "current_password") in
      change_email_checked r user email current (
        required (trim_space email) (codes "email") (codes "Enter your new email address.")
        ++ required current (codes "current_password") (codes "Enter your current password."))

  abbrev delete_data : Request → TemplateData
  delete_data r = new_template_data s r (codes "Delete Account")

  unfoldable pub delete_account_form : Handler
  unfolding new_template_data render_new
  delete_account_form r = render_new s r [] 200 (codes "delete_account.html") (delete_data r)

  abbrev delete_checked : Request → User → Text → Faults → Action Response
  delete_checked r user current [] =
      handle (Accounts.delete_account env s.auth user.id current)
        (λ _. redirect (clear_session_cookie s r ∷ []) Paths.home)
        λ e.
          again_or_fail s r (codes "delete_account.html") (delete_data r) (delete_account_faults e)
  delete_checked r user current (f ∷ faults) =
      again s r (codes "delete_account.html") (delete_data r) check_details (f ∷ faults)

  unfoldable pub delete_account : Handler
  unfolding signed_in parsed delete_account_faults new_template_data clear_session_cookie render_new
      internal_server_error
  delete_account r = signed_in r.user λ user. parsed r.form λ form.
      let current = form.value (codes "current_password") in
      delete_checked r user current
        (required current (codes "current_password") (codes "Enter your current password."))
