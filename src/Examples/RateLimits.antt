-- ===== src/Examples/RateLimits.antt =====
-- The limiter on concrete calls.
use go_spark.Base.{ℕ, ◌≤◌, codes, ◌≡◌, refl, [], ◌∷◌, true, false, arith, text_eq, text_ne}
use go_spark.RateLimit.{Policy}
use go_spark.RateLimit.Limiter.{
  FixedWindowRateLimiter, RateLimitSpec, new_fixed_window_rate_limiter, allow, with_rate_limits,
}
use go_spark.RateLimit.Windows.{Sound}
use go_spark.RateLimit.Decision.{allow-Sound}
use go_spark.RateLimit.Refinement.{verdicts, ideal_verdicts, verdicts-refine}
use go_spark.RateLimit.Bound.{window_bound}
use go_spark.RateLimit.Calls.{RateCall, allowed_calls, run_calls}
use go_spark.RateLimit.Routes.{Chained, with_rate_limits_chains}

abbrev twice : Policy
twice = record { max_requests = 2; window = 100 }

-- A limiter with an open window on `ip:a` that is full, and one call from a cleanup.
abbrev busy : FixedWindowRateLimiter
busy = record {
  entries =
      record { key = codes "ip:a"; count = 2; reset_at = 150 }
      ∷ record { key = codes "ip:b"; count = 1; reset_at = 90 }
      ∷ [];
  calls = 255;
}

busy-Sound : Sound busy
unfolding text_eq
busy-Sound = (((text_ne _ _ refl, tt), (tt, tt)), omega arith, omega arith)

allow-Sound_example : Sound (allow (codes "ip:b") twice 95 busy).1
allow-Sound_example = allow-Sound (codes "ip:b") twice 95 busy busy-Sound

abbrev call_at : ℕ → RateCall
call_at n = record { key = codes "ip:a"; policy = twice; at = n }

window_bound_example :
    allowed_calls
      (codes "ip:a")
      (call_at 99 ∷ call_at 100 ∷ call_at 101 ∷ call_at 102 ∷ [])
      (run_calls (call_at 0 ∷ []) new_fixed_window_rate_limiter)
    ≤ 4
window_bound_example =
    window_bound (codes "ip:a") twice refl 50 150 (call_at 0 ∷ [])
      (call_at 99 ∷ call_at 100 ∷ call_at 101 ∷ call_at 102 ∷ []) (omega arith, omega arith, tt)
      (
        omega arith,
        omega arith,
        (omega arith, omega arith, (omega arith, omega arith, (omega arith, omega arith, tt))),
      )
      ((λ _. refl), tt) ((λ _. refl), ((λ _. refl), ((λ _. refl), ((λ _. refl), tt)))) (omega arith)

abbrev spec_of : Policy → RateLimitSpec
spec_of p = record { name = codes "login"; policy = p; request_key = codes "ip:a" }

with_rate_limits_chains_example :
    Chained 95 (spec_of twice ∷ spec_of (record { max_requests = 1; window = 100 }) ∷ []) busy (
      with_rate_limits
        (spec_of twice ∷ spec_of (record { max_requests = 1; window = 100 }) ∷ [])
        95
        busy)
with_rate_limits_chains_example =
    with_rate_limits_chains 95
      (spec_of twice ∷ spec_of (record { max_requests = 1; window = 100 }) ∷ []) busy

verdicts-refine_example :
    verdicts (call_at 0 ∷ call_at 99 ∷ call_at 99 ∷ call_at 100 ∷ []) new_fixed_window_rate_limiter
    ≡ (true, 0) ∷ (true, 0) ∷ (false, 1) ∷ (true, 0) ∷ []
unfolding ideal_verdicts text_eq
verdicts-refine_example =
    verdicts-refine 0 101 (call_at 0 ∷ call_at 99 ∷ call_at 99 ∷ call_at 100 ∷ [])
      (
        omega arith,
        omega arith,
        (omega arith, omega arith, (omega arith, omega arith, (omega arith, omega arith, tt))),
      )
      (omega arith)
