-- ===== src/Server/Routing.antt =====
-- What a route consists of, in internal/server/server.go and rate_limit.go: the method, the path,
-- the guard, the rate limits and the handler.
pub mod Table
pub mod Guarded
use go_spark.Base.{
  ℕ, Text, codes, text_eq, Bool, true, ◌||◌, ◌&&◌, ltb, if◌then◌else◌, Option, none, some, List, [],
  ◌∷◌, ◌++◌, map, ◌*◌,
}
use go_spark.Schema.{User}
use go_spark.Effect.{Env, Action, ◌>>=◌, now}
use go_spark.RateLimit.{Name, Policies, resolve_name}
use go_spark.RateLimit.Limiter.{RateLimitSpec, FixedWindowRateLimiter, with_rate_limits}
use go_spark.RateLimit.ClientIp as Client
use go_spark.RateLimit.ClientIp.{
  Network, IpNet, request_ip, rate_limit_key_by_ip, rate_limit_key_by_ip_and_email,
  rate_limit_key_by_ip_and_reset_token_cookie,
}
use go_spark.Server.{Server, Request, Response, Form, http_error}
use go_spark.Server.Cookies.{reset_token_from_cookie}
use go_spark.Server.Decimal.{decimal}
use go_spark.Server.Pages.{respond}
use go_spark.Server.Guards.{
  Handler, require_auth, require_anonymous, require_verified_auth, is_unsafe_method,
}

-- The handlers of internal/server/webauthn_handlers.go.
pub record PasskeyHandlers : Type 0 where
  pub page : Handler
  pub register_begin : Handler
  pub register_finish : Handler
  pub rename : Handler
  pub delete : Handler
  pub login_begin : Handler
  pub login_finish : Handler

-- The other fields of the server that the routes use, and the check of
-- http.CrossOriginProtection.
pub record Routing : Type 0 where
  pub net : Network
  pub trusted_proxies : List IpNet
  pub rate_limit_policies : Policies
  pub rate_limiter : FixedWindowRateLimiter
  pub cross_origin : Request → Bool
  pub passkeys : PasskeyHandlers

-- Which of the guards stands before a handler.
pub data Guard : Type 0 where
  unguarded anonymous authenticated verified : Guard

-- Which key function a limit has.
pub data KeyKind : Type 0 where
  by_ip by_ip_and_email by_ip_and_reset_token_cookie by_ip_and_user : KeyKind

pub record Limit : Type 0 where
  pub name : Text
  pub policy : Name
  pub key : KeyKind

pub record Route : Type 0 where
  pub method : Text
  pub path : Text
  pub guard : Guard
  pub limits : List Limit
  pub handler : Handler
  pub post_only : Bool

-- r.FormValue of a form that may have been refused.
abbrev form_value : Option Form → Text → Text
form_value none name = []
form_value (some form) name = form.value name

-- What the key functions read of a request.
abbrev client : Request → Client.Request
client r = record {
  remote_addr = r.remote_addr;
  forwarded_for = r.forwarded_for;
  email_field = form_value r.form (codes "email");
  reset_token = reset_token_from_cookie r;
}

abbrev pub max_request_body_bytes : ℕ
max_request_body_bytes = 64 * 1024

-- A body that is declared too large is refused; what MaxBytesReader cuts off fails in ParseForm.
unfoldable pub limit_request_body : Handler → Handler
unfolding is_unsafe_method
limit_request_body next r =
    if is_unsafe_method r.method && ltb max_request_body_bytes r.content_length
    then respond [] (http_error 413)
    else next r

module _ (env : Env) (s : Server) (g : Routing) where
  abbrev with_user : Text → Option User → Text
  with_user ip none = codes "ip:" ++ ip
  with_user ip (some user) = codes "ip:" ++ ip ++ codes "|user:" ++ decimal user.id

  unfoldable pub rate_limit_key_by_ip_and_user : Request → Text
  unfolding decimal request_ip
  rate_limit_key_by_ip_and_user r = with_user (request_ip g.net g.trusted_proxies (client r)) r.user

  abbrev key_of : KeyKind → Request → Text
  key_of by_ip r = (rate_limit_key_by_ip g.net g.trusted_proxies (client r)).0
  key_of by_ip_and_email r =
      (rate_limit_key_by_ip_and_email g.net g.trusted_proxies s.auth.platform (client r)).0
  key_of by_ip_and_reset_token_cookie r =
      (rate_limit_key_by_ip_and_reset_token_cookie g.net g.trusted_proxies s.auth.platform
        (client r)).0
  key_of by_ip_and_user r = rate_limit_key_by_ip_and_user r

  abbrev spec_of : Request → Limit → RateLimitSpec
  spec_of r l = record {
    name = l.name;
    policy = resolve_name g.rate_limit_policies l.policy;
    request_key = key_of l.key r;
  }

  abbrev unless_limited : Handler → Request → Option (RateLimitSpec × ℕ) → Action Response
  unless_limited next r none = next r
  unless_limited next r (some rejection) = respond [] (http_error 429)

  -- withRateLimits as far as the answer goes; without limits it is not there.
  unfoldable pub limited : List Limit → Handler → Handler
  unfolding with_rate_limits resolve_name rate_limit_key_by_ip rate_limit_key_by_ip_and_email
      rate_limit_key_by_ip_and_reset_token_cookie rate_limit_key_by_ip_and_user
      reset_token_from_cookie
  limited [] next r = next r
  limited (l ∷ ls) next r = do
    at ← now env
    unless_limited next r (with_rate_limits (map (spec_of r) (l ∷ ls)) at g.rate_limiter).0

  abbrev pub guarded : Guard → Handler → Handler
  guarded unguarded next = next
  guarded anonymous next = require_anonymous s next
  guarded authenticated next = require_auth s next
  guarded verified next = require_verified_auth s next

  -- A route's handler behind its limits and its guard.
  abbrev pub run_route : Route → Handler
  run_route a = guarded a.guard (limited a.limits a.handler)
