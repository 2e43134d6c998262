-- ===== src/RateLimit/Windows.antt =====
-- The map of the limiter: which windows are open, and what its updates do to them.
use go_spark.Base.{
  ℕ, ◌≤◌, ◌<◌, Text, text_eq_iff, ◌≡◌, ◌≢◌, refl, sym, ◌∙◌, inl, inr, Bool, true, false, not, ◌&&◌,
  List, [], ◌∷◌, ◌++◌, Option, none, some, All, All-map, find_if, find_if-keep_if, All-find_if-none,
  Distinct, update_if, delete_if, update_if-Distinct, length, Bool-cases, arith, if◌then◌else◌,
}
use go_spark.RateLimit.Limiter.{
  RateLimitEntry, FixedWindowRateLimiter, has_key, is_expired, cleanup_expired, note_call, store,
  max_rate_limit_entries, cleanup_every_n_rate_limit_calls,
}

abbrev pub is_live : ℕ → Text → RateLimitEntry → Bool
is_live at k e = has_key k e && not (is_expired at e)

-- The open window of a key, at a time.
unfoldable pub live_entry : ℕ → Text → List RateLimitEntry → Option RateLimitEntry
live_entry at k es = find_if (is_live at k) es

abbrev pub Keys : List RateLimitEntry → Type 0
Keys = Distinct (λ e. e.key)

-- The keys are those of a map, the table is within its bound, and a cleanup is never far.
abbrev pub Sound : FixedWindowRateLimiter → Type 0
Sound l =
    Distinct (λ e. e.key) l.entries
    × (length l.entries ≤ max_rate_limit_entries)
    × (l.calls < cleanup_every_n_rate_limit_calls)

abbrev pub unless_expired : ℕ → Option RateLimitEntry → Option RateLimitEntry
unless_expired at none = none
unless_expired at (some e) = if is_expired at e then none else some e

is_live-other :
    (at : ℕ) (k : Text) (es : List RateLimitEntry) (e : RateLimitEntry)
    → has_key k e ≡ true
    → All (λ x. e.key ≢ x.key) es
    → find_if (is_live at k) es ≡ none
is_live-other at k es e h a = All-find_if-none (is_live at k) es (
    All-map (λ x. e.key ≢ x.key) (λ x. is_live at k x ≡ false)
      (λ x ne. elim (Bool-cases (has_key k x)) [
        | inl g ↦ absurd (ne ((text_eq_iff e.key k).0 h ∙ sym ((text_eq_iff x.key k).0 g)))
        | inr g ↦ rw g refl
      ])
      es a)

-- The open window of a key is the entry under it, unless that has expired.
pub live_entry-found :
    (at : ℕ) (k : Text) (es : List RateLimitEntry)
    → Keys es
    → live_entry at k es ≡ unless_expired at (find_if (has_key k) es)
unfolding live_entry find_if
live_entry-found at k [] d = refl
live_entry-found at k (e ∷ es) d = elim (Bool-cases (has_key k e)) [
  | inl h ↦ ground (arith, h, is_live-other at k es e h d.0)
  | inr h ↦ rw h (live_entry-found at k es d.1)
]

-- A cleanup takes no open window away, at this time or later.
pub live_entry-cleanup :
    (at t : ℕ) (k : Text) (es : List RateLimitEntry)
    → at ≤ t
    → live_entry t k (cleanup_expired at es) ≡ live_entry t k es
unfolding live_entry cleanup_expired delete_if
live_entry-cleanup at t k es le =
    find_if-keep_if (is_live t k) (λ e. not (is_expired at e)) (λ e h. ground arith) es

pub live_entry-note_call :
    (at t : ℕ) (k : Text) (l : FixedWindowRateLimiter)
    → at ≤ t
    → live_entry t k (note_call at l).entries ≡ live_entry t k l.entries
unfolding note_call
live_entry-note_call at t k l le = ground (arith, live_entry-cleanup at t k l.entries le)

pub find_if-store :
    (e : RateLimitEntry) (es : List RateLimitEntry) {old : RateLimitEntry}
    → find_if (has_key e.key) es ≡ some old
    → find_if (has_key e.key) (store e es) ≡ some e
unfolding find_if update_if
find_if-store e [] h = cc
find_if-store e (x ∷ xs) {old} h = elim (Bool-cases (has_key e.key x)) [
  | inl g ↦ rw (g, g, (text_eq_iff x.key e.key).0 g) refl
  | inr g ↦ rw (g, g, find_if-store e xs (rw g at h)) refl
]

-- The entries of the other keys stay.
pub find_if-store_other :
    (p : RateLimitEntry → Bool) (e : RateLimitEntry) (es : List RateLimitEntry)
    → ((x : RateLimitEntry) → x.key ≡ e.key → p x ≡ false)
    → find_if p (store e es) ≡ find_if p es
unfolding find_if update_if
find_if-store_other p e [] other = refl
find_if-store_other p e (x ∷ xs) other = elim (Bool-cases (has_key e.key x)) [
  | inl g ↦
      (let same : x.key ≡ e.key = (text_eq_iff x.key e.key).0 g in
        rw
          (g, other x same, other (record e { key = x.key }) same, find_if-store_other p e xs other)
          refl)
  | inr g ↦ rw (g, find_if-store_other p e xs other) refl
]

pub find_if-append_none :
    (p : RateLimitEntry → Bool) (es : List RateLimitEntry) (e : RateLimitEntry)
    → find_if p es ≡ none
    → find_if p (es ++ e ∷ []) ≡ (if p e then some e else none)
unfolding find_if
find_if-append_none p [] e h = refl
find_if-append_none p (x ∷ xs) e h = ground (arith, find_if-append_none p xs e)

pub find_if-append_other :
    (p : RateLimitEntry → Bool) (es : List RateLimitEntry) (e : RateLimitEntry)
    → p e ≡ false
    → find_if p (es ++ e ∷ []) ≡ find_if p es
unfolding find_if
find_if-append_other p [] e h = rw h refl
find_if-append_other p (x ∷ xs) e h = rw (find_if-append_other p xs e h) refl

pub store-Keys : (e : RateLimitEntry) (es : List RateLimitEntry) → Keys es → Keys (store e es)
store-Keys e es d =
    update_if-Distinct (has_key e.key) (λ x. x.key) (λ old. record e { key = old.key }) (λ x. refl)
      es d
