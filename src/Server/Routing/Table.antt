-- ===== src/Server/Routing/Table.antt =====
-- The table of the routes, registerAuthRoutes of internal/server/server.go and
-- registerProjectRoutes of project_handlers.go, and Routes, which serves it. Health checks,
-- robots.txt, static files and headers are left out.
use Prim.Native.String.{String}
use go_spark.Base.{
  Text, codes, text_eq, Bool, true, false, ◌||◌, ◌&&◌, if◌then◌else◌, Option, none, some, is_some,
  List, [], ◌∷◌, ◌++◌, find_if,
}
use go_spark.Effect.{Env}
use go_spark.RateLimit
use go_spark.RateLimit.{Name}
use go_spark.Server.{Server, http_error}
use go_spark.Server.Pages.{respond, new_template_data, render_new}
use go_spark.Server.Guards.{Handler, get, csrf, load_session}
use go_spark.Server.Routing.{
  Routing, Route, Guard, unguarded, anonymous, authenticated, verified, Limit, KeyKind, by_ip,
  by_ip_and_email, by_ip_and_reset_token_cookie, by_ip_and_user, run_route, limited,
  limit_request_body,
}
use go_spark.Server.Handlers.Login
use go_spark.Server.Handlers.Signup
use go_spark.Server.Handlers.Recovery
use go_spark.Server.Handlers.Account
use go_spark.Server.Handlers.TwoFactor
use go_spark.Server.Handlers.Projects
use go_spark.Server.Paths

abbrev pub limit : String → Name → KeyKind → Limit
limit name policy key = record { name = codes name; policy = policy; key = key }

abbrev at_get : Text → Guard → List Limit → Handler → Route
at_get path guard limits handler = record {
  method = get;
  path = path;
  guard = guard;
  limits = limits;
  handler = handler;
  post_only = false;
}

abbrev at_post : Text → Guard → List Limit → Handler → Route
at_post path guard limits handler = record (at_get path guard limits handler) {
  method = codes "POST";
}

-- postOnly
abbrev post_only : Text → Guard → List Limit → Handler → Route
post_only path guard limits handler = record (at_post path guard limits handler) {
  post_only = true;
}

module _ (env : Env) (s : Server) (g : Routing) where
  unfoldable pub auth_routes : List Route
  auth_routes =
      at_get Paths.register anonymous [] (Signup.register_form env s)
      ∷ at_post Paths.register anonymous
          (limit "register-ip" RateLimit.register_per_ip by_ip
            ∷ limit "register" RateLimit.register by_ip_and_email
            ∷ [])
          (Signup.register env s)
      ∷ at_get Paths.login anonymous [] (Login.login_form env s)
      ∷ at_post Paths.login anonymous
          (limit "login-ip" RateLimit.login_per_ip by_ip
            ∷ limit "login" RateLimit.login by_ip_and_email
            ∷ [])
          (Login.login env s)
      ∷ post_only Paths.logout authenticated [] (Login.logout env s)
      ∷ at_get Paths.account verified [] (Account.account env s)
      ∷ at_get Paths.change_password verified [] (Account.change_password_form env s)
      ∷ at_post Paths.change_password verified
          (limit "change-password" RateLimit.change_password by_ip_and_user ∷ [])
          (Account.change_password env s)
      ∷ post_only Paths.account_sessions_revoke verified
          (limit "revoke-session" RateLimit.revoke_session by_ip_and_user ∷ [])
          (Account.revoke_session env s)
      ∷ post_only Paths.account_sessions_revoke_others verified
          (limit "revoke-other-sessions" RateLimit.revoke_other_sessions by_ip_and_user ∷ [])
          (Account.revoke_other_sessions env s)
      ∷ at_get Paths.forgot_password anonymous [] (Recovery.forgot_password_form env s)
      ∷ at_post Paths.forgot_password anonymous
          (limit "forgot-password-ip" RateLimit.forgot_password_per_ip by_ip
            ∷ limit "forgot-password" RateLimit.forgot_password by_ip_and_email
            ∷ [])
          (Recovery.forgot_password env s)
      ∷ at_get Paths.reset_password anonymous [] (Recovery.reset_password_form env s)
      ∷ at_post Paths.reset_password anonymous
          (limit "reset-password" RateLimit.reset_password by_ip_and_reset_token_cookie ∷ [])
          (Recovery.reset_password env s)
      ∷ at_get Paths.confirm_email unguarded [] (Signup.confirm_email env s)
      ∷ at_get Paths.resend_verification anonymous [] (Signup.resend_verification_form env s)
      ∷ at_post Paths.resend_verification anonymous
          (limit "resend-verification-public-ip" RateLimit.public_resend_verify_per_ip by_ip
            ∷ limit "resend-verification-public" RateLimit.public_resend_verification
                by_ip_and_email
            ∷ [])
          (Signup.resend_verification_public env s)
      ∷ at_get Paths.verify_email authenticated [] (Signup.verify_email env s)
      ∷ post_only Paths.verify_email_resend authenticated
          (limit "resend-verification-account" RateLimit.account_resend_verification by_ip_and_user
            ∷ [])
          (Signup.resend_verification env s)
      ∷ at_get Paths.confirm_email_change unguarded [] (Signup.confirm_email_change env s)
      ∷ at_get Paths.change_email verified [] (Account.change_email_form env s)
      ∷ at_post Paths.change_email verified
          (limit "change-email" RateLimit.change_email by_ip_and_user ∷ [])
          (Account.change_email env s)
      ∷ at_get Paths.account_delete verified [] (Account.delete_account_form env s)
      ∷ at_post Paths.account_delete verified
          (limit "delete-account" RateLimit.delete_account by_ip_and_user ∷ [])
          (Account.delete_account env s)
      ∷ at_get Paths.account_two_factor verified [] (TwoFactor.two_factor_page env s)
      ∷ post_only Paths.account_two_factor_setup verified [] (TwoFactor.two_factor_setup env s)
      ∷ post_only Paths.account_two_factor_confirm verified
          (limit "totp-confirm" RateLimit.totp_confirm by_ip_and_user ∷ [])
          (TwoFactor.two_factor_confirm env s)
      ∷ post_only Paths.account_two_factor_disable verified
          (limit "totp-disable" RateLimit.totp_disable by_ip_and_user ∷ [])
          (TwoFactor.two_factor_disable env s)
      ∷ post_only Paths.account_two_factor_regenerate_codes verified
          (limit "totp-regenerate-codes" RateLimit.totp_regenerate_codes by_ip_and_user ∷ [])
          (TwoFactor.two_factor_regenerate_codes env s)
      ∷ at_get Paths.account_two_factor_challenge anonymous []
          (Login.two_factor_challenge_form env s)
      ∷ at_post Paths.account_two_factor_challenge anonymous
          (limit "totp-challenge" RateLimit.totp_challenge by_ip ∷ [])
          (Login.two_factor_challenge env s)
      ∷ at_get Paths.account_passkeys verified [] g.passkeys.page
      ∷ post_only Paths.account_passkeys_register_begin verified
          (limit "passkey-register-begin" RateLimit.passkey_register by_ip_and_user ∷ [])
          g.passkeys.register_begin
      ∷ post_only Paths.account_passkeys_register_finish verified
          (limit "passkey-register-finish" RateLimit.passkey_register by_ip_and_user ∷ [])
          g.passkeys.register_finish
      ∷ post_only Paths.account_passkeys_rename verified
          (limit "passkey-rename" RateLimit.passkey_manage by_ip_and_user ∷ []) g.passkeys.rename
      ∷ post_only Paths.account_passkeys_delete verified
          (limit "passkey-delete" RateLimit.passkey_manage by_ip_and_user ∷ []) g.passkeys.delete
      ∷ post_only Paths.login_passkey_begin anonymous
          (limit "passkey-login-begin" RateLimit.passkey_login by_ip ∷ []) g.passkeys.login_begin
      ∷ post_only Paths.login_passkey_finish anonymous
          (limit "passkey-login-finish" RateLimit.passkey_login by_ip ∷ []) g.passkeys.login_finish
      ∷ []

  unfoldable pub project_routes : List Route
  project_routes =
      at_get Paths.projects verified [] (Projects.projects_index env s)
      ∷ at_post Paths.projects verified [] (Projects.create_project env s)
      ∷ post_only Paths.projects_delete verified [] (Projects.delete_project env s)
      ∷ []

  -- A pattern for GET matches HEAD too.
  abbrev pub matches : Text → Text → Route → Bool
  matches method path a =
      text_eq a.path path
      && (text_eq a.method method || (text_eq a.method get && text_eq method (codes "HEAD")))

  unfoldable pub route_for : Text → Text → Option Route
  unfolding auth_routes project_routes
  route_for method path = find_if (matches method path) (auth_routes ++ project_routes)

  unfoldable pub home : Handler
  unfolding render_new new_template_data
  home r = render_new s r [] 200 (codes "home.html") (new_template_data s r (codes "Home"))

  abbrev is_post_only : Text → Route → Bool
  is_post_only path a = a.post_only && text_eq a.path path

  unfoldable pub not_found_page : Handler
  unfolding render_new new_template_data auth_routes project_routes
  not_found_page r =
      if is_some (find_if (is_post_only r.path) (auth_routes ++ project_routes))
      then respond [] (http_error 405)
      else render_new s r [] 404 (codes "404.html") (new_template_data s r (codes "Page Not Found"))

  -- No route: the patterns "GET /{$}" and "GET /{path...}", and 405 for any other method.
  abbrev unrouted : Handler
  unrouted r =
      if text_eq r.method get || text_eq r.method (codes "HEAD")
      then (if text_eq r.path Paths.home then home r else not_found_page r)
      else respond [] (http_error 405)

  abbrev pub served : Option Route → Handler
  served none r = unrouted r
  served (some a) r = run_route env s g a r

  -- The inner mux, for a path that is clean.
  unfoldable pub dynamic : Handler
  unfolding route_for home not_found_page limited
  dynamic r = served (route_for r.method r.path) r

  unfoldable pub routes : Handler
  unfolding limit_request_body csrf load_session dynamic
  routes r = limit_request_body (csrf g.cross_origin (load_session s env dynamic)) r
