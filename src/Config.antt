-- ===== src/Config.antt =====
-- The settings of internal/config/config.go, read from the environment. An error is `none`: only
-- its text tells one from another.
pub mod DotEnv
pub mod Values
pub mod Settings
pub mod Usable
use Prim.Native.String.{String}
use go_spark.Base.{
  ℕ, ◌*◌, ◌==◌, ◌||◌, ◌&&◌, not, Text, codes, text_eq, Bool, true, false, Option, none, some, List,
  [], ◌∷◌, ◌++◌, is_empty, trim_space, split, cut, contains, reverse, has_prefix, starts_with,
  ends_with, drop, take, length, ◌-◌, if◌then◌else◌,
}
use go_spark.Platform.{Platform, Address}
use go_spark.RateLimit.{Name, name_text, names, Policy, Policies}
use go_spark.Server.Decimal.{parse_int}
use go_spark.Server.Cookies.{parse_bool}

infixl 5 ◌>>=◌
unfoldable pub ◌>>=◌ : {A B : Type 0} → Option A → (A → Option B) → Option B
none >>= f = none
some a >>= f = f a

-- A parsed URL, as far as envURL looks at it, and its String().
pub record AppUrl : Type 0 where
  pub scheme : Text
  pub host : Text
  pub raw_query : Text
  pub fragment : Text
  pub text : Text

-- What the settings take from the environment and from other packages: os.Getenv; time.ParseDuration,
-- with 0 for what is not positive; url.Parse; and whether net.ParseCIDR and net.ParseIP read a text.
pub record Surroundings : Type 0 where
  pub platform : Platform
  pub getenv : Text → Text
  pub parse_duration : Text → Option ℕ
  pub parse_url : Text → Option AppUrl
  pub is_cidr : Text → Bool
  pub is_ip : Text → Bool

pub record Config : Type 0 where
  pub addr : Text
  pub process : Text
  pub log_format : Text
  pub database_path : Text
  pub cookie_secure : Bool
  pub secret_key_base : Text
  pub totp_key : Text
  pub email_change_notice_enabled : Bool
  pub password_min_length : ℕ
  pub password_pepper : Text
  pub app_base_url : Text
  pub email_from : Text
  pub email_provider : Text
  pub email_log_body : Bool
  pub smtp_host : Text
  pub smtp_port : ℕ
  pub smtp_username : Text
  pub smtp_password : Text
  pub smtp_tls : Bool
  pub cleanup_interval : ℕ
  pub cleanup_token_retention : ℕ
  pub cleanup_sent_email_retention : ℕ
  pub cleanup_failed_email_retention : ℕ
  pub rate_limit_policies : Policies
  pub trusted_proxies : List Text
  pub totp_issuer : Text
  pub passkey_rp_id : Text
  pub passkey_rp_display_name : Text

unfoldable pub is_process : Text → Bool
is_process p = text_eq p (codes "all") || text_eq p (codes "web") || text_eq p (codes "worker")

abbrev pub is_provider : Text → Bool
is_provider p = text_eq p (codes "log") || text_eq p (codes "smtp")

abbrev pub is_format : Text → Bool
is_format f = text_eq f (codes "text") || text_eq f (codes "json")

-- A value that passes a test.
abbrev pub only_if : {A : Type 0} → (A → Bool) → A → Option A
only_if p a = if p a then some a else none

abbrev pub is_positive : ℕ → Bool
is_positive n = not (n == 0)

-- Both are empty, or neither is.
abbrev pub is_paired : Text × Text → Bool
is_paired (user, password) =
    (is_empty user && is_empty password) || (not (is_empty user) && not (is_empty password))
