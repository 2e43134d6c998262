-- ===== src/Server/Handlers.antt =====
-- The handlers of internal/server/auth_handlers.go and internal/server/totp_handlers.go, and what
-- they share. The log lines are left out.
pub mod Login
pub mod Signup
pub mod Recovery
pub mod Account
pub mod TwoFactor
pub mod Projects
use go_spark.Base.{
  ℕ, ◌==◌, ltb, length, Text, codes, text_eq, Bool, Option, none, some, List, [], ◌∷◌, ◌++◌,
  trim_space, is_empty, if◌then◌else◌,
}
use go_spark.Schema.{User}
use go_spark.Effect.{
  Err, Action, invalid_email, invalid_password, password_too_long, invalid_credentials,
}
use go_spark.Auth.Service.{password_max_length}
use go_spark.Server.{Server, Request, Form, Response, TemplateData, http_error, page}
use go_spark.Server.Decimal.{decimal}
use go_spark.Server.Pages.{
  respond, render_new, internal_server_error, new_template_data, flash_cookies,
}

-- ParseForm, and 400 where it fails.
unfoldable pub parsed : Option Form → (Form → Action Response) → Action Response
parsed none f = respond [] (http_error 400)
parsed (some form) f = f form

-- The user in the context, and 401 without one.
unfoldable pub signed_in : Option User → (User → Action Response) → Action Response
signed_in none f = respond [] (http_error 401)
signed_in (some user) f = f user

abbrev pub check_details : Text
check_details = codes "Check your details and try again."

abbrev pub at_least : ℕ → Text
at_least n = codes "Use at least " ++ (decimal n ++ codes " characters.")

abbrev pub at_most : Text
at_most = codes "Use at most 4096 characters."

abbrev pub Faults : Type 0
Faults = List (Text × Text)

-- handleAuthFormError: the message and the field errors of an error, if it has any.
unfoldable pub auth_form_faults : ℕ → Err → Option (Text × Faults)
unfolding decimal
auth_form_faults min invalid_email =
    some (check_details, (codes "email", codes "Enter a valid email address.") ∷ [])
auth_form_faults min invalid_password = some (check_details, (codes "password", at_least min) ∷ [])
auth_form_faults min password_too_long = some (check_details, (codes "password", at_most) ∷ [])
auth_form_faults min invalid_credentials = some (codes "Email or password is not correct.", [])
auth_form_faults min _ = none

-- validatePasswordPair
unfoldable pub validate_password_pair : ℕ → Text → Text → Text → Text → Faults
unfolding decimal
validate_password_pair min_length password confirm password_field confirm_field =
    let min = if min_length == 0 then 12 else min_length in
    let first : Faults =
      if is_empty password
      then (password_field, codes "Enter a password.") ∷ []
      else if ltb (length password) min
      then (password_field, at_least min) ∷ []
      else if ltb password_max_length (length password)
      then (password_field, at_most) ∷ []
      else [] in
    let second : Faults =
      if is_empty confirm
      then (confirm_field, codes "Confirm your password.") ∷ []
      else if text_eq password confirm
      then []
      else (confirm_field, codes "Passwords do not match.") ∷ [] in
    first ++ second

module _ (s : Server) (r : Request) where
  -- The page of a form again, with 422; an error without a message is an internal one.
  abbrev form_again : Text → TemplateData → Option (Text × Faults) → Action Response
  form_again template d none = internal_server_error s r (flash_cookies s r)
  form_again template d (some (error, faults)) =
      render_new s r [] 422 template (record d { error = error; field_errors = faults })

  unfoldable pub handle_auth_form_error : Text → TemplateData → Err → Action Response
  unfolding auth_form_faults internal_server_error render_new
  handle_auth_form_error template d e =
      form_again template d (auth_form_faults d.password_min_length e)

  -- `data.Error = …; data.FieldErrors = …; s.renderStatus(w, 422, …)`
  abbrev pub again : Text → TemplateData → Text → Faults → Action Response
  again template d error faults = form_again template d (some (error, faults))

  -- The same, where the error may be an internal one.
  abbrev pub again_or_fail : Text → TemplateData → Option Faults → Action Response
  again_or_fail template d none = internal_server_error s r (flash_cookies s r)
  again_or_fail template d (some faults) = again template d check_details faults
