-- ===== src/RateLimit/Routes.antt =====
-- The chain of limits that guards a route, what a rejected caller is told, and the resolved
-- policies.
use go_spark.Base.{
  ℕ, ◌≤◌, ◌<◌, ◌+◌, ◌*◌, Text, text_eq, ◌≡◌, refl, sym, ap, subst, ◌∙◌, inl, inr, true, false, List,
  [], ◌∷◌, ◌++◌, map, Option, none, some, arith, find_if,
}
use go_spark.RateLimit.{
  Policy, Name, Policies, defaults, resolve, resolve_name, names_entry, override_with, login,
  login_per_ip, register, register_per_ip, forgot_password, forgot_password_per_ip, reset_password,
  public_resend_verification, public_resend_verify_per_ip, account_resend_verification,
  change_password, change_email, revoke_session, revoke_other_sessions, delete_account,
  totp_challenge, totp_disable, totp_confirm, totp_regenerate_codes, passkey_register,
  passkey_login, passkey_manage,
}
use go_spark.RateLimit.Limiter.{
  RateLimitEntry, FixedWindowRateLimiter, Verdict, is_off, allow, RateLimitSpec, bucket,
  with_rate_limits, retry_after_seconds,
}
use go_spark.RateLimit.Windows.{live_entry, Sound}
use go_spark.RateLimit.Decision.{Decided, allow_decides, allow-Sound}
use go_spark.RateLimit.Calls.{RateCall, run_calls, ask, live_entry-later}

-- The call of the limiter that a spec makes.
abbrev pub call_of : ℕ → RateLimitSpec → RateCall
call_of at s = record { key = bucket s; policy = s.policy; at = at }

-- Every call of the list is allowed, one after the other.
abbrev pub AllAllowed : List RateCall → FixedWindowRateLimiter → Type 0
AllAllowed [] l = Unit
AllAllowed (c ∷ cs) l = ((ask c l).0.0 ≡ true) × AllAllowed cs (ask c l).1

abbrev pub Chained :
    ℕ
    → List RateLimitSpec
    → FixedWindowRateLimiter
    → Option (RateLimitSpec × ℕ) × FixedWindowRateLimiter
    → Type 0
Chained at ss l (none, l') =
    AllAllowed (map (call_of at) ss) l × (l' ≡ run_calls (map (call_of at) ss) l)
Chained at ss l (some (s, retry), l') =
    (before : List RateLimitSpec) × (after : List RateLimitSpec) × (ss ≡ before ++ s ∷ after)
    × AllAllowed (map (call_of at) before) l
    × (allow (bucket s) s.policy at (run_calls (map (call_of at) before) l) ≡ ((false, retry), l'))

chain_from :
    (at : ℕ) (s : RateLimitSpec) (ss : List RateLimitSpec) (l : FixedWindowRateLimiter)
    → (allow (bucket s) s.policy at l).0.0 ≡ true
    → (r : Option (RateLimitSpec × ℕ) × FixedWindowRateLimiter)
    → Chained at ss (allow (bucket s) s.policy at l).1 r
    → Chained at (s ∷ ss) l r
unfolding run_calls
chain_from at s ss l ok (none, l') (all, e) = ((ok, all), e)
chain_from at s ss l ok (some (t, retry), l') (before, after, split, all, e) =
    (s ∷ before, after, ap (λ x. s ∷ x) split, (ok, all), e)

-- A request goes on exactly after each of its limits was asked in order and allowed it. If it is
-- rejected, then every limit before the rejecting one allowed it, and none after that one was
-- asked: their buckets are not charged.
pub with_rate_limits_chains :
    (at : ℕ) (ss : List RateLimitSpec) (l : FixedWindowRateLimiter)
    → Chained at ss l (with_rate_limits ss at l)
unfolding with_rate_limits run_calls
with_rate_limits_chains at [] l = (tt, refl)
with_rate_limits_chains at (s ∷ ss) l =
    go (allow (bucket s) s.policy at l) (with_rate_limits_chains at ss) refl
  where
    go :
        (r : Verdict × FixedWindowRateLimiter)
        → ((l' : FixedWindowRateLimiter) → Chained at ss l' (with_rate_limits ss at l'))
        → allow (bucket s) s.policy at l ≡ r
        → Chained at
            (s ∷ ss)
            l
            (elim r.0.0 [ true ↦ with_rate_limits ss at r.1 | false ↦ (some (s, r.0.1), r.1) ])
    go ((true, d), l') rest e =
        chain_from at s ss l (ap (λ r. r.0.0) e) _ (
          subst (λ x. Chained at ss x (with_rate_limits ss at l')) (sym (ap (λ r. r.1) e))
            (rest l'))
    go ((false, d), l') rest e = ([], ss, refl, tt, e)

-- A call that an open window rejects is told to wait at least a second, and when that time has
-- passed the window is over.
pub retry_suffices :
    (k : Text) (p : Policy) (at : ℕ) (l : FixedWindowRateLimiter) (e : RateLimitEntry) (t : ℕ)
    → is_off p ≡ false
    → Sound l
    → live_entry at k l.entries ≡ some e
    → (allow k p at l).0.0 ≡ false
    → at + retry_after_seconds (allow k p at l).0.1 * 1_000_000_000 ≤ t
    → (1 ≤ retry_after_seconds (allow k p at l).0.1)
      × (live_entry t k (allow k p at l).1.entries ≡ none)
unfolding retry_after_seconds
retry_suffices k p at l e t off s h rejected wait =
    elim (subst (λ o. Decided k p at o (allow k p at l)) h (allow_decides k p at l off s)) [
      | inl (less, v, q) ↦ absurd (ground (arith, v))
      | inr (full, v, q) ↦ (
        ground arith,
        live_entry-later at t k (allow k p at l).1.entries (allow-Sound k p at l s).0 (ground arith)
            ∙ rw q (ground (arith, v)),
      )
    ]

found_name :
    (o : Policies) (n : Name) → find_if (names_entry n) (resolve o) ≡ some (n, resolve_name o n)
unfolding find_if resolve text_eq
found_name o login = refl
found_name o login_per_ip = refl
found_name o register = refl
found_name o register_per_ip = refl
found_name o forgot_password = refl
found_name o forgot_password_per_ip = refl
found_name o reset_password = refl
found_name o public_resend_verification = refl
found_name o public_resend_verify_per_ip = refl
found_name o account_resend_verification = refl
found_name o change_password = refl
found_name o change_email = refl
found_name o revoke_session = refl
found_name o revoke_other_sessions = refl
found_name o delete_account = refl
found_name o totp_challenge = refl
found_name o totp_disable = refl
found_name o totp_confirm = refl
found_name o totp_regenerate_codes = refl
found_name o passkey_register = refl
found_name o passkey_login = refl
found_name o passkey_manage = refl

default_positive : (n : Name) → (0 < (defaults n).max_requests) × (0 < (defaults n).window)
unfolding defaults
default_positive login = (omega arith, omega arith)
default_positive login_per_ip = (omega arith, omega arith)
default_positive register = (omega arith, omega arith)
default_positive register_per_ip = (omega arith, omega arith)
default_positive forgot_password = (omega arith, omega arith)
default_positive forgot_password_per_ip = (omega arith, omega arith)
default_positive reset_password = (omega arith, omega arith)
default_positive public_resend_verification = (omega arith, omega arith)
default_positive public_resend_verify_per_ip = (omega arith, omega arith)
default_positive account_resend_verification = (omega arith, omega arith)
default_positive change_password = (omega arith, omega arith)
default_positive change_email = (omega arith, omega arith)
default_positive revoke_session = (omega arith, omega arith)
default_positive revoke_other_sessions = (omega arith, omega arith)
default_positive delete_account = (omega arith, omega arith)
default_positive totp_challenge = (omega arith, omega arith)
default_positive totp_disable = (omega arith, omega arith)
default_positive totp_confirm = (omega arith, omega arith)
default_positive totp_regenerate_codes = (omega arith, omega arith)
default_positive passkey_register = (omega arith, omega arith)
default_positive passkey_login = (omega arith, omega arith)
default_positive passkey_manage = (omega arith, omega arith)

override_positive :
    (d : Policy) (x : Option (Name × Policy))
    → 0 < d.max_requests
    → 0 < d.window
    → (0 < (override_with d x).max_requests) × (0 < (override_with d x).window)
override_positive d none m w = (m, w)
override_positive d (some (n, p)) m w = (ground arith, ground arith)

-- Whatever the overrides, the resolved policies have an entry for every action, its own, and no
-- resolved policy is switched off.
pub resolve_complete :
    (o : Policies) (n : Name)
    → (find_if (names_entry n) (resolve o) ≡ some (n, resolve_name o n))
      × (is_off (resolve_name o n) ≡ false)
unfolding resolve_name
resolve_complete o n =
    let (m, w) =
      override_positive (defaults n) (find_if (names_entry n) o) (default_positive n).0
        (default_positive n).1 in
    (found_name o n, ground (arith, m, w))
