-- ===== src/Server/Cookies.antt =====
-- The cookies of internal/server/auth.go.
use Prim.Native.String.{String}
use go_spark.Base.{
  ℕ, ◌+◌, ◌-◌, ◌/◌, ◌==◌, ltb, Text, codes, text_eq, Bool, true, false, ◌||◌, Option, none, some,
  List, [], ◌∷◌, ◌++◌, trim_space, split, if◌then◌else◌,
}
use go_spark.Effect.{Env, Action, ◌>>=◌, pure, now}
use go_spark.Auth.Service.{seconds}
use go_spark.Auth.Sessions.{AuthSession}
use go_spark.Server.{
  Server, Request, Cookie, SameSite, lax, strict, Lifetime, until_closed, deleted, lasts,
}
use go_spark.Server.SignedValue.{derive_key, sign_value, verify_value}
use go_spark.Server.Decimal.{decimal, parse_int}
use go_spark.Server.Paths

abbrev pub session_cookie_name : Text
session_cookie_name = codes "session"

abbrev pub reset_cookie_name : Text
reset_cookie_name = codes "reset_token"

abbrev pub totp_pending_cookie_name : Text
totp_pending_cookie_name = codes "totp_pending"

abbrev pub reset_cookie_ttl : ℕ
reset_cookie_ttl = seconds 600

abbrev pub totp_pending_cookie_ttl : ℕ
totp_pending_cookie_ttl = seconds 300

-- int(time.Until(…).Seconds()), at least 1.
unfoldable pub session_cookie_max_age : ℕ → ℕ → ℕ
session_cookie_max_age expires_at now =
    let max_age = (expires_at - now) / 1_000_000_000 in if ltb max_age 1 then 1 else max_age

-- The value of a cookie of the request, white space trimmed; empty without one.
abbrev cookie_text : Option Text → Text
cookie_text none = []
cookie_text (some v) = trim_space v

unfoldable pub reset_token_from_cookie : Request → Text
reset_token_from_cookie r = cookie_text (r.cookie reset_cookie_name)

unfoldable pub session_token_from_cookie : Request → Text
session_token_from_cookie r = cookie_text (r.cookie session_cookie_name)

-- What the pending cookie carries.
pub record TotpPendingLogin : Type 0 where
  pub user_id : ℕ
  pub remember_me : Bool

-- strconv.ParseBool
unfoldable pub parse_bool : Text → Option Bool
parse_bool t =
    let is : String → Bool = λ w. text_eq t (codes w) in
    if is "1" || is "t" || is "T" || is "TRUE" || is "true" || is "True"
    then some true
    else if is "0" || is "f" || is "F" || is "FALSE" || is "false" || is "False"
    then some false
    else none

-- fmt.Sprintf("%t")
abbrev pub bool_text : Bool → Text
bool_text true = codes "true"
bool_text false = codes "false"

-- ':'
abbrev pub colon : ℕ
colon = b':'

unfoldable pub pending_payload : ℕ → Bool → ℕ → Text
unfolding decimal
pending_payload user remember at =
    decimal user ++ colon ∷ (bool_text remember ++ colon ∷ decimal at)

-- The three fields of a payload, and the time.
pub record PendingFields : Type 0 where
  pub login : TotpPendingLogin
  pub at : ℕ

abbrev read_time : ℕ → Bool → Option ℕ → Option PendingFields
read_time user remember none = none
read_time user remember (some at) =
    some (record { login = record { user_id = user; remember_me = remember }; at = at })

abbrev read_remember : ℕ → Option Bool → Text → Option PendingFields
read_remember user none at = none
read_remember user (some remember) at = read_time user remember (parse_int at)

abbrev read_user : Option ℕ → Text → Text → Option PendingFields
read_user none remember at = none
read_user (some user) remember at =
    if user == 0 then none else read_remember user (parse_bool remember) at

abbrev read_fields : List Text → Option PendingFields
read_fields (user ∷ remember ∷ at ∷ []) = read_user (parse_int user) remember at
read_fields _ = none

unfoldable pub parse_pending : Text → Option PendingFields
unfolding parse_int parse_bool split
parse_pending payload = read_fields (split colon payload)

module _ (s : Server) where
  unfoldable pub secure_cookie : Request → Bool
  secure_cookie r = s.cookie_secure || r.tls

  module _ (r : Request) where
    -- A cookie that the browser deletes.
    abbrev pub cleared : Text → Text → SameSite → Cookie
    cleared name path same = record {
      name = name;
      value = [];
      path = path;
      lifetime = deleted;
      secure = secure_cookie r;
      same_site = same;
    }

    unfoldable pub clear_session_cookie : Cookie
    unfolding secure_cookie
    clear_session_cookie = cleared session_cookie_name Paths.home lax

    unfoldable pub clear_reset_cookie : Cookie
    unfolding secure_cookie
    clear_reset_cookie = cleared reset_cookie_name Paths.reset_password strict

    unfoldable pub clear_totp_pending_cookie : Cookie
    unfolding secure_cookie
    clear_totp_pending_cookie =
        cleared totp_pending_cookie_name Paths.account_two_factor_challenge strict

    abbrev session_cookie : AuthSession → Lifetime → Cookie
    session_cookie session lifetime = record {
      name = session_cookie_name;
      value = session.token;
      path = Paths.home;
      lifetime = lifetime;
      secure = secure_cookie r;
      same_site = lax;
    }

    unfoldable pub set_session_cookie : Env → AuthSession → Bool → Action Cookie
    unfolding secure_cookie session_cookie_max_age
    set_session_cookie env session remember =
        if remember
        then (do
          at ← now env
          pure (
              session_cookie session
                (lasts session.expires_at (session_cookie_max_age session.expires_at at))))
        else pure (session_cookie session until_closed)

    unfoldable pub set_reset_cookie : Env → Text → Action Cookie
    unfolding secure_cookie
    set_reset_cookie env token = do
      at ← now env
      pure (record {
        name = reset_cookie_name;
        value = trim_space token;
        path = Paths.reset_password;
        lifetime = lasts (at + reset_cookie_ttl) 600;
        secure = secure_cookie r;
        same_site = strict;
      })

    unfoldable pub totp_pending_key : Text
    unfolding derive_key
    totp_pending_key = derive_key s.auth.platform s.web s.cookie_signing_key (codes "totp_pending")

    -- A time in seconds, as `Unix()` gives it.
    unfoldable pub set_totp_pending_cookie : Env → ℕ → Bool → Action Cookie
    unfolding secure_cookie totp_pending_key sign_value pending_payload
    set_totp_pending_cookie env user remember = do
      at ← now env
      pure (record {
        name = totp_pending_cookie_name;
        value =
            sign_value s.auth.platform s.web totp_pending_key
              (pending_payload user remember (at / 1_000_000_000));
        path = Paths.account_two_factor_challenge;
        lifetime = lasts (at + totp_pending_cookie_ttl) 300;
        secure = secure_cookie r;
        same_site = strict;
      })

    abbrev pub unless_expired : Env → Option PendingFields → Action (Option TotpPendingLogin)
    unless_expired env none = pure none
    unless_expired env (some f) = do
      at ← now env
      pure (if ltb (seconds f.at + totp_pending_cookie_ttl) at then none else some f.login)

    abbrev pub parsed_value : Option Text → Option PendingFields
    parsed_value none = none
    parsed_value (some payload) = parse_pending payload

    abbrev pub signed_fields : Option Text → Option PendingFields
    signed_fields none = none
    signed_fields (some value) =
        parsed_value (verify_value s.auth.platform s.web totp_pending_key value)

    unfoldable pub totp_pending_login_from_cookie : Env → Action (Option TotpPendingLogin)
    unfolding totp_pending_key verify_value parse_pending
    totp_pending_login_from_cookie env =
        unless_expired env (signed_fields (r.cookie totp_pending_cookie_name))
