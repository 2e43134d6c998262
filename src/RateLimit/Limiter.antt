-- ===== src/RateLimit/Limiter.antt =====
-- The limiter of internal/server/rate_limit.go, and the chain of limits on a route.
use go_spark.Base.{
  ℕ, suc, ◌+◌, ◌-◌, ◌%◌, ◌/◌, Text, text_eq, Bool, true, false, ◌||◌, leb, ltb, ◌==◌, if◌then◌else◌,
  List, [], ◌∷◌, ◌++◌, Option, none, some, find_if, delete_if, update_if, length, codes,
}
use go_spark.RateLimit.{Policy}

abbrev pub cleanup_every_n_rate_limit_calls : ℕ
cleanup_every_n_rate_limit_calls = 256

abbrev pub max_rate_limit_entries : ℕ
max_rate_limit_entries = 50_000

-- An entry of the map, with the key it stands under.
pub record RateLimitEntry : Type 0 where
  pub key : Text
  pub count : ℕ
  pub reset_at : ℕ

pub record FixedWindowRateLimiter : Type 0 where
  pub entries : List RateLimitEntry
  pub calls : ℕ

abbrev pub new_fixed_window_rate_limiter : FixedWindowRateLimiter
new_fixed_window_rate_limiter = record { entries = []; calls = 0 }

abbrev pub has_key : Text → RateLimitEntry → Bool
has_key k e = text_eq e.key k

-- `!now.Before(entry.ResetAt)`
abbrev pub is_expired : ℕ → RateLimitEntry → Bool
is_expired at e = leb e.reset_at at

unfoldable pub cleanup_expired : ℕ → List RateLimitEntry → List RateLimitEntry
cleanup_expired at es = delete_if (is_expired at) es

-- `l.entries[key] = entry` of a key that is in the map: the value is replaced, the key stays
abbrev pub store : RateLimitEntry → List RateLimitEntry → List RateLimitEntry
store e es = update_if (has_key e.key) (λ old. record e { key = old.key }) es

abbrev pub first_of_window : Text → Policy → ℕ → RateLimitEntry
first_of_window k p at = record { key = k; count = 1; reset_at = at + p.window }

abbrev pub one_more : RateLimitEntry → RateLimitEntry
one_more e = record e { count = suc e.count }

-- The counter of calls, a uint64, and the cleanup at every 256th call.
unfoldable pub note_call : ℕ → FixedWindowRateLimiter → FixedWindowRateLimiter
note_call at l =
    let calls = suc l.calls % 18_446_744_073_709_551_616 in
    if calls % cleanup_every_n_rate_limit_calls == 0
    then record { entries = cleanup_expired at l.entries; calls = 0 }
    else record l { calls = calls }

abbrev pub is_off : Policy → Bool
is_off p = (p.max_requests == 0) || (p.window == 0)

abbrev pub Verdict : Type 0
Verdict = Bool × ℕ

-- What happens to the entry that is found under the key.
unfoldable pub admit :
    Text → Policy → ℕ → List RateLimitEntry → Option RateLimitEntry → Verdict × List RateLimitEntry
admit k p at es none =
    if leb max_rate_limit_entries (length es)
    then ((false, p.window), es)
    else ((true, 0), es ++ first_of_window k p at ∷ [])
admit k p at es (some e) =
    if is_expired at e
    then ((true, 0), store (first_of_window k p at) es)
    else if ltb e.count p.max_requests
    then ((true, 0), store (one_more e) es)
    else ((false, e.reset_at - at), es)

-- Whether the call may go on, and if not, when to retry.
unfoldable pub allow : Text → Policy → ℕ → FixedWindowRateLimiter → Verdict × FixedWindowRateLimiter
unfolding note_call admit
allow k p at l =
    if is_off p
    then ((true, 0), l)
    else (let l' = note_call at l in
        let (verdict, es) = admit k p at l'.entries (find_if (has_key k) l'.entries) in
        (verdict, record l' { entries = es }))

-- A limit on a route: the name of the policy, the policy, and the key of the request.
pub record RateLimitSpec : Type 0 where
  pub name : Text
  pub policy : Policy
  pub request_key : Text

abbrev pub bucket : RateLimitSpec → Text
bucket s = s.name ++ codes "|" ++ s.request_key

-- The loop of withRateLimits: the specs are asked in order, and the first that rejects ends it.
-- The result is `none` for a request that goes on, and what the rejecting spec says else.
unfoldable pub with_rate_limits :
    List RateLimitSpec
    → ℕ
    → FixedWindowRateLimiter
    → Option (RateLimitSpec × ℕ) × FixedWindowRateLimiter
with_rate_limits [] at l = (none, l)
with_rate_limits (s ∷ ss) at l =
    let ((allowed, retry_after), l') = allow (bucket s) s.policy at l in
    elim allowed [ true ↦ with_rate_limits ss at l' | false ↦ (some (s, retry_after), l') ]

-- The Retry-After of a rejection, in seconds: rounded up, and at least 1.
unfoldable pub retry_after_seconds : ℕ → ℕ
retry_after_seconds d = let s = (d + 999_999_999) / 1_000_000_000 in if ltb s 1 then 1 else s
