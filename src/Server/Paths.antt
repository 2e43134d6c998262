-- ===== src/Server/Paths.antt =====
-- The paths of internal/paths/paths.go, but those of static files.
use go_spark.Base.{Text, codes}

abbrev pub home : Text
home = codes "/"

abbrev pub healthz : Text
healthz = codes "/healthz"

abbrev pub readyz : Text
readyz = codes "/readyz"

abbrev pub robots_txt : Text
robots_txt = codes "/robots.txt"

abbrev pub login : Text
login = codes "/login"

abbrev pub login_passkey_begin : Text
login_passkey_begin = codes "/login/passkey/begin"

abbrev pub login_passkey_finish : Text
login_passkey_finish = codes "/login/passkey/finish"

abbrev pub register : Text
register = codes "/register"

abbrev pub logout : Text
logout = codes "/logout"

abbrev pub account : Text
account = codes "/account"

abbrev pub verify_email : Text
verify_email = codes "/account/verify-email"

abbrev pub confirm_email : Text
confirm_email = codes "/account/confirm-email"

abbrev pub forgot_password : Text
forgot_password = codes "/account/forgot-password"

abbrev pub reset_password : Text
reset_password = codes "/account/reset-password"

abbrev pub resend_verification : Text
resend_verification = codes "/account/resend-verification"

abbrev pub verify_email_resend : Text
verify_email_resend = codes "/account/verify-email/resend"

abbrev pub change_password : Text
change_password = codes "/account/change-password"

abbrev pub change_email : Text
change_email = codes "/account/change-email"

abbrev pub confirm_email_change : Text
confirm_email_change = codes "/account/confirm-email-change"

abbrev pub account_sessions_revoke : Text
account_sessions_revoke = codes "/account/sessions/revoke"

abbrev pub account_sessions_revoke_others : Text
account_sessions_revoke_others = codes "/account/sessions/revoke-others"

abbrev pub account_delete : Text
account_delete = codes "/account/delete"

abbrev pub account_two_factor : Text
account_two_factor = codes "/account/two-factor"

abbrev pub account_two_factor_setup : Text
account_two_factor_setup = codes "/account/two-factor/setup"

abbrev pub account_two_factor_confirm : Text
account_two_factor_confirm = codes "/account/two-factor/confirm"

abbrev pub account_two_factor_disable : Text
account_two_factor_disable = codes "/account/two-factor/disable"

abbrev pub account_two_factor_challenge : Text
account_two_factor_challenge = codes "/account/two-factor/challenge"

abbrev pub account_two_factor_regenerate_codes : Text
account_two_factor_regenerate_codes = codes "/account/two-factor/regenerate-codes"

abbrev pub account_passkeys : Text
account_passkeys = codes "/account/passkeys"

abbrev pub account_passkeys_register_begin : Text
account_passkeys_register_begin = codes "/account/passkeys/register/begin"

abbrev pub account_passkeys_register_finish : Text
account_passkeys_register_finish = codes "/account/passkeys/register/finish"

abbrev pub account_passkeys_rename : Text
account_passkeys_rename = codes "/account/passkeys/rename"

abbrev pub account_passkeys_delete : Text
account_passkeys_delete = codes "/account/passkeys/delete"

abbrev pub projects : Text
projects = codes "/projects"

abbrev pub projects_delete : Text
projects_delete = codes "/projects/delete"
