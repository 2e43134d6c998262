-- ===== src/RateLimit.antt =====
-- internal/ratelimit/ratelimit.go: the policies of the rate-limited actions, and how overrides
-- apply. Below: the limiter of internal/server/rate_limit.go.
pub mod Limiter
pub mod ClientIp
pub mod Spoofing
pub mod Windows
pub mod Decision
pub mod Bound
pub mod Calls
pub mod Routes
pub mod Refinement
use go_spark.Base.{
  ℕ, ◌*◌, ltb, Text, codes, text_eq, Bool, List, [], ◌∷◌, map, if◌then◌else◌, Option, none, some,
  find_if,
}

-- A duration is a number of nanoseconds, and 0 stands for what is not positive.
pub record Policy : Type 0 where
  pub max_requests : ℕ
  pub window : ℕ

pub data Name : Type 0 where
  login login_per_ip register register_per_ip forgot_password forgot_password_per_ip : Name
  reset_password public_resend_verification public_resend_verify_per_ip : Name
  account_resend_verification change_password change_email revoke_session : Name
  revoke_other_sessions delete_account totp_challenge totp_disable totp_confirm : Name
  totp_regenerate_codes passkey_register passkey_login passkey_manage : Name

-- The string value of a name.
abbrev pub name_text : Name → Text
name_text login = codes "login"
name_text login_per_ip = codes "login_per_ip"
name_text register = codes "register"
name_text register_per_ip = codes "register_per_ip"
name_text forgot_password = codes "forgot_password"
name_text forgot_password_per_ip = codes "forgot_password_per_ip"
name_text reset_password = codes "reset_password"
name_text public_resend_verification = codes "public_resend_verification"
name_text public_resend_verify_per_ip = codes "public_resend_verification_per_ip"
name_text account_resend_verification = codes "account_resend_verification"
name_text change_password = codes "change_password"
name_text change_email = codes "change_email"
name_text revoke_session = codes "revoke_session"
name_text revoke_other_sessions = codes "revoke_other_sessions"
name_text delete_account = codes "delete_account"
name_text totp_challenge = codes "totp_challenge"
name_text totp_disable = codes "totp_disable"
name_text totp_confirm = codes "totp_confirm"
name_text totp_regenerate_codes = codes "totp_regenerate_codes"
name_text passkey_register = codes "passkey_register"
name_text passkey_login = codes "passkey_login"
name_text passkey_manage = codes "passkey_manage"

abbrev pub names : List Name
names =
    login ∷ login_per_ip ∷ register ∷ register_per_ip ∷ forgot_password ∷ forgot_password_per_ip
    ∷ reset_password ∷ public_resend_verification ∷ public_resend_verify_per_ip
    ∷ account_resend_verification ∷ change_password ∷ change_email ∷ revoke_session
    ∷ revoke_other_sessions ∷ delete_account ∷ totp_challenge ∷ totp_disable ∷ totp_confirm
    ∷ totp_regenerate_codes ∷ passkey_register ∷ passkey_login ∷ passkey_manage ∷ []

abbrev minutes : ℕ → ℕ
minutes n = n * 60_000_000_000

abbrev per : ℕ → ℕ → Policy
per n w = record { max_requests = n; window = minutes w }

unfoldable pub defaults : Name → Policy
defaults login = per 5 1
defaults login_per_ip = per 50 15
defaults register = per 3 10
defaults register_per_ip = per 10 15
defaults forgot_password = per 3 15
defaults forgot_password_per_ip = per 20 15
defaults reset_password = per 5 15
defaults public_resend_verification = per 3 15
defaults public_resend_verify_per_ip = per 20 15
defaults account_resend_verification = per 5 15
defaults change_password = per 5 15
defaults change_email = per 5 15
defaults revoke_session = per 20 15
defaults revoke_other_sessions = per 10 15
defaults delete_account = per 3 15
defaults totp_challenge = per 5 1
defaults totp_disable = per 5 15
defaults totp_confirm = per 10 15
defaults totp_regenerate_codes = per 5 15
defaults passkey_register = per 10 15
defaults passkey_login = per 10 1
defaults passkey_manage = per 20 15

-- A map from names to policies, as its entries.
abbrev pub Policies : Type 0
Policies = List (Name × Policy)

abbrev pub names_entry : Name → Name × Policy → Bool
names_entry n e = text_eq (name_text e.0) (name_text n)

abbrev override_with : Policy → Option (Name × Policy) → Policy
override_with d none = d
override_with d (some (n, p)) = record {
  max_requests = if ltb 0 p.max_requests then p.max_requests else d.max_requests;
  window = if ltb 0 p.window then p.window else d.window;
}

unfoldable pub resolve_name : Policies → Name → Policy
resolve_name overrides n = override_with (defaults n) (find_if (names_entry n) overrides)

unfoldable pub resolve : Policies → Policies
resolve overrides = map (λ n. (n, resolve_name overrides n)) names
