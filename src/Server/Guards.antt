-- ===== src/Server/Guards.antt =====
-- The guards before the handlers: loadSession, requireAuth, requireAnonymous, requireVerifiedAuth
-- and safeRedirectPath of internal/server/auth.go, and internal/server/csrf.go.
use go_spark.Base.{
  Text, codes, text_eq, Bool, true, false, not, ◌||◌, ◌&&◌, Option, none, some, is_some, [], ◌∷◌,
  ◌++◌, is_empty, has_prefix, contains, if◌then◌else◌,
}
use go_spark.Schema.{User}
use go_spark.Platform.{Target, Web}
use go_spark.Effect.{Env, Err, Action, ◌>>=◌, pure, handle, invalid_session}
use go_spark.Auth.Sessions.{user_by_session_token}
use go_spark.Server.{Server, Request, Cookie, Response, http_error}
use go_spark.Server.Cookies.{session_cookie_name, clear_session_cookie}
use go_spark.Server.Pages.{respond, redirect, internal_server_error}
use go_spark.Server.Paths

abbrev pub Handler : Type 0
Handler = Request → Action Response

-- '\'
abbrev pub backslash : Text
backslash = 92 ∷ []

module _ (web : Web) where
  abbrev target_path : Option Target → Text
  target_path none = []
  target_path (some u) =
      if u.is_absolute || not (is_empty u.host)
      then []
      else if not (has_prefix (codes "/") u.path) || has_prefix (codes "//") u.path
      then []
      else if contains 92 u.path
      then []
      else u.request_uri

  unfoldable pub safe_redirect_path : Text → Text
  unfolding has_prefix contains
  safe_redirect_path value =
      if is_empty value
      then []
      else if has_prefix backslash value || has_prefix (codes "/" ++ backslash) value
      then []
      else target_path (web.parse_target value)

abbrev pub get : Text
get = codes "GET"

unfoldable pub is_unsafe_method : Text → Bool
is_unsafe_method m = not (
    text_eq m get
    || text_eq m (codes "HEAD")
    || text_eq m (codes "OPTIONS")
    || text_eq m (codes "TRACE"))

-- The check of http.CrossOriginProtection, true where it finds no fault.
unfoldable pub csrf : (Request → Bool) → Handler → Handler
unfolding is_unsafe_method
csrf check next r =
    if is_unsafe_method r.method && not (check r) then respond [] (http_error 403) else next r

-- `errors.Is(err, auth.ErrInvalidSession)`
unfoldable pub is_invalid_session : Err → Bool
is_invalid_session invalid_session = true
is_invalid_session _ = false

-- Cookies that are set before the handler runs.
abbrev with_cookie : Cookie → Response → Action Response
with_cookie c a = pure (record a { cookies = c ∷ a.cookies })

module _ (s : Server) where
  -- "?next=" and the target, if there is one.
  abbrev pub with_next : Text → Text → Text
  with_next path [] = path
  with_next path (c ∷ next) = path ++ (codes "?next=" ++ s.web.query_escape (c ∷ next))

  unfoldable pub redirect_to_login : Handler
  unfolding safe_redirect_path
  redirect_to_login r = redirect [] (with_next Paths.login (safe_redirect_path s.web r.request_uri))

  abbrev pub on_session_error : Request → Handler → Env → Err → Action Response
  on_session_error r next env e =
      if is_invalid_session e
      then (next r >>= with_cookie (clear_session_cookie s r))
      else internal_server_error s r []

  abbrev pub load_cookie : Env → Handler → Request → Option Text → Action Response
  load_cookie env next r none = next r
  load_cookie env next r (some value) =
      handle (user_by_session_token env s.auth value) (λ user. next (record r { user = some user }))
        (on_session_error r next env)

  unfoldable pub load_session : Env → Handler → Handler
  unfolding is_invalid_session clear_session_cookie internal_server_error
  load_session env next r = load_cookie env next r (r.cookie session_cookie_name)

  -- What a GET and any other request are answered without a user.
  unfoldable pub turn_away : Handler
  unfolding redirect_to_login
  turn_away r = if text_eq r.method get then redirect_to_login r else respond [] (http_error 401)

  abbrev need_user : Handler → Request → Option User → Action Response
  need_user next r none = turn_away r
  need_user next r (some u) = next r

  unfoldable pub require_auth : Handler → Handler
  unfolding turn_away
  require_auth next r = need_user next r r.user

  abbrev need_nobody : Handler → Request → Option User → Action Response
  need_nobody next r none = next r
  need_nobody next r (some u) =
      if is_some u.email_verified_at
      then redirect [] Paths.account
      else redirect [] Paths.verify_email

  unfoldable pub require_anonymous : Handler → Handler
  require_anonymous next r = need_nobody next r r.user

  abbrev pub need_verified : Handler → Request → Option User → Action Response
  need_verified next r none = turn_away r
  need_verified next r (some u) =
      if is_some u.email_verified_at
      then next r
      else if text_eq r.method get
      then redirect [] Paths.verify_email
      else respond [] (http_error 403)

  unfoldable pub require_verified_auth : Handler → Handler
  unfolding turn_away
  require_verified_auth next r = need_verified next r r.user
