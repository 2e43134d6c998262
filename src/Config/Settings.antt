-- ===== src/Config/Settings.antt =====
-- All settings: FromEnvWithProcess of internal/config/config.go.
use go_spark.Base.{
  ℕ, ◌*◌, not, Text, codes, text_eq, true, false, Option, none, some, List, [], ◌∷◌, ◌++◌, is_empty,
  trim_space, split, contains, if◌then◌else◌,
}
use go_spark.RateLimit.{Name, name_text, names, Policy, Policies}
use go_spark.Config.{◌>>=◌, Surroundings, Config, only_if, is_positive, is_paired}
use go_spark.Config.Values.{
  var, env_or_default, env_bool_or_default, env_bool, env_int, env_int_optional_positive,
  env_duration_optional_positive, env_duration_or_default, env_url, env_email_address,
  env_email_provider, env_log_format, process_from_override_or_env,
}

abbrev hours : ℕ → ℕ
hours n = n * 3_600_000_000_000

module _ (e : Surroundings) where
  -- The entries that are not blank, each of them an address or a network.
  unfoldable pub read_proxies : List Text → Option (List Text)
  unfolding trim_space contains
  read_proxies [] = some []
  read_proxies (raw ∷ raws) =
      let entry = trim_space raw in
      let known = if contains b'/' entry then e.is_cidr entry else e.is_ip entry in
      let rest = read_proxies raws in
      if is_empty entry then rest else if known then (rest >>= λ es. some (entry ∷ es)) else none

  unfoldable pub env_trusted_proxies : Text → Option (List Text)
  unfolding read_proxies split
  env_trusted_proxies key =
      if is_empty (e.getenv key) then some [] else read_proxies (split b',' (e.getenv key))

  unfoldable pub env_prefix : Name → Text
  env_prefix name = codes "RATE_LIMIT_" ++ e.platform.to_upper (name_text name)

  unfoldable pub rate_limit_policy_from_env : Text → Option Policy
  unfolding env_int_optional_positive env_duration_optional_positive
  rate_limit_policy_from_env prefix = do
    max_requests ← env_int_optional_positive e (prefix ++ codes "_MAX_REQUESTS")
    window ← env_duration_optional_positive e (prefix ++ codes "_WINDOW")
    some (record { max_requests = max_requests; window = window })

  unfoldable pub read_policies : List Name → Option Policies
  unfolding rate_limit_policy_from_env env_prefix
  read_policies [] = some []
  read_policies (n ∷ ns) = do
    policy ← rate_limit_policy_from_env (env_prefix n)
    rest ← read_policies ns
    some ((n, policy) ∷ rest)

  abbrev rate_limit_policies_from_env : Option Policies
  rate_limit_policies_from_env = read_policies names

  -- The settings without those of SMTP.
  unfoldable pub base_config : Text → Option Config
  unfolding process_from_override_or_env env_log_format env_bool env_int_optional_positive
      env_bool_or_default env_url env_email_address env_email_provider env_duration_or_default
      env_or_default trim_space read_policies env_trusted_proxies
  base_config override = do
    process ← process_from_override_or_env e override
    log_format ← env_log_format e (codes "LOG_FORMAT") (codes "text")
    cookie_secure ← env_bool e (codes "APP_COOKIE_SECURE")
    min_length ← env_int_optional_positive e (codes "AUTH_PASSWORD_MIN_LENGTH")
    notice ← env_bool_or_default e (codes "AUTH_EMAIL_CHANGE_NOTICE_ENABLED") true
    url ← env_url e (codes "APP_BASE_URL") (codes "http://localhost:8080")
    from ← env_email_address e (codes "EMAIL_FROM") (codes "Go Spark <hello@example.com>")
    provider ← env_email_provider e (codes "EMAIL_PROVIDER") (codes "log")
    log_body ← env_bool e (codes "EMAIL_LOG_BODY")
    interval ← env_duration_or_default e (codes "JOBS_CLEANUP_INTERVAL") (hours 1)
    tokens ← env_duration_or_default e (codes "JOBS_CLEANUP_TOKEN_RETENTION") (hours 24)
    sent ← env_duration_or_default e (codes "JOBS_CLEANUP_SENT_EMAIL_RETENTION") (hours (7 * 24))
    failed ←
        env_duration_or_default e (codes "JOBS_CLEANUP_FAILED_EMAIL_RETENTION") (hours (14 * 24))
    policies ← rate_limit_policies_from_env
    proxies ← env_trusted_proxies (codes "TRUSTED_PROXY_IPS")
    some (record {
      addr = env_or_default e (codes "APP_ADDR") (codes ":8080");
      process = process;
      log_format = log_format;
      database_path = env_or_default e (codes "DATABASE_PATH") (codes "./data/app.db");
      cookie_secure = cookie_secure;
      secret_key_base = trim_space (var e "SECRET_KEY_BASE");
      totp_key = trim_space (var e "AUTH_TOTP_KEY");
      email_change_notice_enabled = notice;
      password_min_length = min_length;
      password_pepper = trim_space (var e "AUTH_PASSWORD_PEPPER");
      app_base_url = url;
      email_from = from;
      email_provider = provider;
      email_log_body = log_body;
      smtp_host = [];
      smtp_port = 0;
      smtp_username = [];
      smtp_password = [];
      smtp_tls = false;
      cleanup_interval = interval;
      cleanup_token_retention = tokens;
      cleanup_sent_email_retention = sent;
      cleanup_failed_email_retention = failed;
      rate_limit_policies = policies;
      trusted_proxies = proxies;
      totp_issuer = trim_space (var e "AUTH_TOTP_ISSUER");
      passkey_rp_id = trim_space (var e "AUTH_PASSKEY_RP_ID");
      passkey_rp_display_name = trim_space (var e "AUTH_PASSKEY_RP_DISPLAY_NAME");
    })

  -- The settings of SMTP on top.
  unfoldable pub smtp_config : Config → Option Config
  unfolding trim_space env_int env_bool_or_default
  smtp_config cfg = do
    host ← only_if (λ h. not (is_empty h)) (trim_space (var e "SMTP_HOST"))
    port ← env_int e (codes "SMTP_PORT") >>= only_if is_positive
    tls ← env_bool_or_default e (codes "SMTP_TLS") true
    both ← only_if is_paired (trim_space (var e "SMTP_USERNAME"), var e "SMTP_PASSWORD")
    some (record cfg {
      smtp_host = host;
      smtp_port = port;
      smtp_username = both.0;
      smtp_password = both.1;
      smtp_tls = tls;
    })

  unfoldable pub from_env_with_process : Text → Option Config
  unfolding base_config smtp_config
  from_env_with_process override = do
    cfg ← base_config override
    if text_eq cfg.email_provider (codes "smtp") then smtp_config cfg else some cfg
