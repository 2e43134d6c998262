-- ===== src/Examples/Settings.antt =====
-- Settings for mails over SMTP, everything else by default.
use go_spark.Base.{
  Text, codes, text_eq, ◌≡◌, ◌⊎◌, refl, true, false, none, some, [], map, trim_space, if◌then◌else◌,
}
use go_spark.RateLimit.{names}
use go_spark.Server.Decimal.{parse_int, read_digits}
use go_spark.Config.{◌>>=◌, Surroundings, Config, is_process}
use go_spark.Config.Values.{
  process_from_override_or_env, env_process, env_log_format, env_bool, env_int,
  env_int_optional_positive, env_bool_or_default, env_url, env_email_address, env_email_provider,
  env_duration_or_default, env_duration_optional_positive, env_or_default, trim_front,
}
use go_spark.Config.Settings.{
  from_env_with_process, base_config, smtp_config, read_policies, rate_limit_policy_from_env,
  env_prefix, env_trusted_proxies,
}
use go_spark.Config.Usable.{Settled, Sendable, from_env-Settled}
use go_spark.Examples.Fixtures.{platform}

abbrev variables : Text → Text
variables key =
    if text_eq key (codes "EMAIL_PROVIDER")
    then codes " smtp"
    else if text_eq key (codes "SMTP_HOST")
    then codes "mail.test"
    else if text_eq key (codes "SMTP_PORT")
    then codes "25"
    else []

abbrev surroundings : Surroundings
surroundings = record {
  platform = platform;
  getenv = variables;
  parse_duration = λ t. none;
  parse_url = λ t. some (record {
    scheme = codes "http";
    host = codes "h";
    raw_query = [];
    fragment = [];
    text = codes "http://h/";
  });
  is_cidr = λ t. false;
  is_ip = λ t. false;
}

abbrev settings : Config
settings = record {
  addr = codes ":8080";
  process = codes "all";
  log_format = codes "text";
  database_path = codes "./data/app.db";
  cookie_secure = false;
  secret_key_base = [];
  totp_key = [];
  email_change_notice_enabled = true;
  password_min_length = 0;
  password_pepper = [];
  app_base_url = codes "http://h";
  email_from = codes "Go Spark <hello@example.com>";
  email_provider = codes "smtp";
  email_log_body = false;
  smtp_host = codes "mail.test";
  smtp_port = 25;
  smtp_username = [];
  smtp_password = [];
  smtp_tls = true;
  cleanup_interval = 3_600_000_000_000;
  cleanup_token_retention = 86_400_000_000_000;
  cleanup_sent_email_retention = 604_800_000_000_000;
  cleanup_failed_email_retention = 1_209_600_000_000_000;
  rate_limit_policies = map (λ n. (n, record { max_requests = 0; window = 0 })) names;
  trusted_proxies = [];
  totp_issuer = [];
  passkey_rp_id = [];
  passkey_rp_display_name = [];
}

loads : from_env_with_process surroundings [] ≡ some settings
unfolding from_env_with_process base_config smtp_config process_from_override_or_env env_process
    env_log_format env_bool env_int env_int_optional_positive env_bool_or_default env_url
    env_email_address env_email_provider env_duration_or_default env_duration_optional_positive
    env_or_default read_policies rate_limit_policy_from_env env_prefix env_trusted_proxies
    trim_front is_process ◌>>=◌ text_eq trim_space parse_int read_digits
loads = refl

from_env-Settled_example :
    Settled settings
    × ((text_eq settings.email_provider (codes "smtp") ≡ false) ⊎ Sendable settings)
from_env-Settled_example = from_env-Settled surroundings [] settings loads
