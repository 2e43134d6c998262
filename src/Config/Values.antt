-- ===== src/Config/Values.antt =====
-- One setting: the functions of internal/config/config.go that read a variable.
use Prim.Native.String.{String}
use go_spark.Base.{
  ℕ, ◌==◌, ◌||◌, ◌&&◌, not, Text, codes, text_eq, Bool, false, Option, none, some, [], ◌∷◌,
  is_empty, trim_space, reverse, if◌then◌else◌,
}
use go_spark.Server.Decimal.{parse_int}
use go_spark.Server.Cookies.{parse_bool}
use go_spark.Config.{
  ◌>>=◌, AppUrl, Surroundings, is_process, is_provider, is_format, only_if, is_positive,
}

-- strings.TrimRight at one character.
unfoldable pub trim_front : ℕ → Text → Text
trim_front x [] = []
trim_front x (c ∷ t) = let rest = trim_front x t in if c == x then rest else c ∷ t

abbrev trim_right : ℕ → Text → Text
trim_right x t = reverse (trim_front x (reverse t))

module _ (e : Surroundings) where
  abbrev pub var : String → Text
  var key = e.getenv (codes key)

  abbrev pub lowered : Text → Text
  lowered t = e.platform.to_lower (trim_space t)

  unfoldable pub env_or_default : Text → Text → Text
  env_or_default key fallback = if is_empty (e.getenv key) then fallback else e.getenv key

  unfoldable pub env_bool_or_default : Text → Bool → Option Bool
  unfolding parse_bool
  env_bool_or_default key fallback =
      if is_empty (e.getenv key) then some fallback else parse_bool (e.getenv key)

  unfoldable pub env_bool : Text → Option Bool
  unfolding parse_bool
  env_bool key = if is_empty (e.getenv key) then some false else parse_bool (e.getenv key)

  unfoldable pub env_int : Text → Option ℕ
  unfolding parse_int
  env_int key = if is_empty (e.getenv key) then none else parse_int (e.getenv key)

  unfoldable pub env_int_optional_positive : Text → Option ℕ
  unfolding parse_int
  env_int_optional_positive key =
      if is_empty (e.getenv key) then some 0 else parse_int (e.getenv key) >>= only_if is_positive

  unfoldable pub env_duration_optional_positive : Text → Option ℕ
  env_duration_optional_positive key =
      if is_empty (e.getenv key)
      then some 0
      else e.parse_duration (e.getenv key) >>= only_if is_positive

  unfoldable pub env_duration_or_default : Text → ℕ → Option ℕ
  unfolding trim_space
  env_duration_or_default key fallback =
      let raw = trim_space (e.getenv key) in
      if is_empty raw then some fallback else e.parse_duration raw >>= only_if is_positive

  abbrev is_app_url : AppUrl → Bool
  is_app_url u =
      (text_eq u.scheme (codes "http") || text_eq u.scheme (codes "https"))
      && not (is_empty u.host)
      && is_empty u.raw_query
      && is_empty u.fragment

  unfoldable pub env_url : Text → Text → Option Text
  unfolding env_or_default trim_front
  env_url key fallback = do
    u ← e.parse_url (env_or_default key fallback)
    if is_app_url u then some (trim_right b'/' u.text) else none

  unfoldable pub env_email_address : Text → Text → Option Text
  unfolding env_or_default
  env_email_address key fallback = do
    a ← e.platform.parse_address (env_or_default key fallback)
    some a.text

  unfoldable pub env_email_provider : Text → Text → Option Text
  unfolding env_or_default trim_space
  env_email_provider key fallback = only_if is_provider (lowered (env_or_default key fallback))

  unfoldable pub env_process : Text → Text → Option Text
  unfolding env_or_default trim_space is_process
  env_process key fallback = only_if is_process (lowered (env_or_default key fallback))

  unfoldable pub env_log_format : Text → Text → Option Text
  unfolding env_or_default trim_space
  env_log_format key fallback = only_if is_format (lowered (env_or_default key fallback))

  unfoldable pub process_from_override_or_env : Text → Option Text
  unfolding env_process trim_space is_process
  process_from_override_or_env override =
      let process = lowered override in
      if is_empty process
      then env_process (codes "APP_PROCESS") (codes "all")
      else only_if is_process process
