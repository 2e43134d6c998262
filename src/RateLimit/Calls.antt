-- ===== src/RateLimit/Calls.antt =====
-- Sequences of calls of the limiter, and what one call does to the window of a key.
use go_spark.Base.{
  ℕ, suc, ◌≤◌, ◌<◌, Text, text_eq, text_eq_iff, ◌≡◌, ◌≢◌, refl, sym, subst, ◌∙◌, ◌⊎◌, inl, inr,
  Bool, false, ◌&&◌, List, [], ◌∷◌, Option, none, some, All, Bool-cases, arith, if◌then◌else◌,
}
use go_spark.RateLimit.{Policy}
use go_spark.RateLimit.Limiter.{RateLimitEntry, FixedWindowRateLimiter, Verdict, is_off, allow}
use go_spark.RateLimit.Windows.{live_entry, Keys, Sound, unless_expired, live_entry-found}
use go_spark.RateLimit.Decision.{Decided, allow_decides, allow_isolated}

pub record RateCall : Type 0 where
  pub key : Text
  pub policy : Policy
  pub at : ℕ

abbrev pub ask : RateCall → FixedWindowRateLimiter → Verdict × FixedWindowRateLimiter
ask c = allow c.key c.policy c.at

-- The limiter after calls.
unfoldable pub run_calls : List RateCall → FixedWindowRateLimiter → FixedWindowRateLimiter
run_calls [] l = l
run_calls (c ∷ cs) l = run_calls cs (ask c l).1

-- Whether the call is on the key and allowed.
abbrev pub is_allowed_on : Text → RateCall → Verdict → Bool
is_allowed_on k c v = text_eq c.key k && v.0

-- The number of calls on a key that the limiter allows.
unfoldable pub allowed_calls : Text → List RateCall → FixedWindowRateLimiter → ℕ
allowed_calls k [] l = 0
allowed_calls k (c ∷ cs) l =
    let rest = allowed_calls k cs (ask c l).1 in
    if is_allowed_on k c (ask c l).0 then suc rest else rest

-- The calls come in the order of their times, which lie between `a` and `b`.
abbrev pub Timed : ℕ → ℕ → List RateCall → Type 0
Timed a b [] = Unit
Timed a b (c ∷ cs) = (a ≤ c.at) × (c.at < b) × Timed c.at b cs

-- The calls on the key are under one policy, as those of a rate-limited route are.
abbrev pub Under : Text → Policy → List RateCall → Type 0
Under k p cs = All (λ c. c.key ≡ k → c.policy ≡ p) cs

pub live_entry-later :
    (a t : ℕ) (k : Text) (es : List RateLimitEntry)
    → Keys es
    → a ≤ t
    → live_entry t k es ≡ unless_expired t (live_entry a k es)
live_entry-later a t k es d le = rw (live_entry-found a k es d, live_entry-found t k es d) (go _)
  where
    go : (o : Option RateLimitEntry) → unless_expired t o ≡ unless_expired t (unless_expired a o)
    go none = refl
    go (some e) = ground (arith, le)

-- What a call does to the open window of the key, seen at the time of the call.
abbrev pub Stepped :
    Text → Policy → RateCall → Option RateLimitEntry → FixedWindowRateLimiter → Type 0
Stepped k p c o l =
    ((c.key ≢ k) × (live_entry c.at k (ask c l).1.entries ≡ o))
    ⊎ ((c.key ≡ k) × Decided k p c.at o (ask c l))

pub step_call :
    (k : Text) (p : Policy) (c : RateCall) (l : FixedWindowRateLimiter) (o : Option RateLimitEntry)
    → is_off p ≡ false
    → Sound l
    → (c.key ≡ k → c.policy ≡ p)
    → live_entry c.at k l.entries ≡ o
    → Stepped k p c o l
step_call k p c l o off s under h = elim (Bool-cases (text_eq c.key k)) [
  | inl e ↦
      (let same : c.key ≡ k = (text_eq_iff c.key k).0 e in
        inr (
          same,
          subst (λ x. Decided k p c.at x (ask c l)) h
              (subst (λ j. Decided k p c.at (live_entry c.at k l.entries) (allow j c.policy c.at l))
                (sym same)
                (subst (λ q. Decided k p c.at (live_entry c.at k l.entries) (allow k q c.at l))
                  (sym (under same)) (allow_decides k p c.at l off s))),
        ))
  | inr e ↦
      (let other : c.key ≢ k = λ same. cc ((text_eq_iff c.key k).1 same) in
        inl (
          other,
          allow_isolated c.at k c.key c.policy c.at l (λ q. other (sym q)) (omega arith) ∙ h,
        ))
]
