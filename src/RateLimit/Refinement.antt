-- ===== src/RateLimit/Refinement.antt =====
-- The limiter of internal/server/rate_limit.go against a limiter that keeps, for each key, only the
-- window that was opened last.
use go_spark.Base.{
  ℕ, suc, ◌+◌, ◌-◌, ◌≤◌, ◌<◌, ◌%◌, ◌==◌, not, Text, text_eq, text_eq_iff, text_eq_refl, ◌≡◌, ◌≢◌,
  refl, sym, ap, subst, ◌∙◌, inl, inr, true, false, ltb, if◌then◌else◌, List, [], ◌∷◌, Option, none,
  some, find_if, length, length-append, length-update_if, length-keep_if-le, delete_if, Bool-cases,
  arith,
}
use go_spark.RateLimit.{Policy}
use go_spark.RateLimit.Limiter.{
  RateLimitEntry, FixedWindowRateLimiter, Verdict, is_off, is_expired, has_key, note_call,
  cleanup_expired, admit, allow, first_of_window, one_more, max_rate_limit_entries,
  new_fixed_window_rate_limiter,
}
use go_spark.RateLimit.Windows.{live_entry, Sound, unless_expired}
use go_spark.RateLimit.Decision.{Decided, allow_decides, allow_isolated, allow-Sound}
use go_spark.RateLimit.Calls.{RateCall, ask, Timed, live_entry-later}

-- The window that a key was last given.
abbrev pub KeyWindows : Type 0
KeyWindows = Text → Option RateLimitEntry

abbrev pub no_windows : KeyWindows
no_windows k = none

abbrev put : Text → Option RateLimitEntry → KeyWindows → KeyWindows
put k o m j = if text_eq j k then o else m j

-- A call without and with an open window.
abbrev decide : Text → Policy → ℕ → Option RateLimitEntry → Verdict × Option RateLimitEntry
decide k p at none = ((true, 0), some (first_of_window k p at))
decide k p at (some e) =
    if ltb e.count p.max_requests
    then ((true, 0), some (one_more e))
    else ((false, e.reset_at - at), some e)

abbrev ideal_ask : RateCall → KeyWindows → Verdict × KeyWindows
ideal_ask c m =
    if is_off c.policy
    then ((true, 0), m)
    else (let (v, o) = decide c.key c.policy c.at (unless_expired c.at (m c.key)) in
        (v, put c.key o m))

-- The verdicts on a sequence of calls.
unfoldable pub ideal_verdicts : List RateCall → KeyWindows → List Verdict
ideal_verdicts [] m = []
ideal_verdicts (c ∷ cs) m = (ideal_ask c m).0 ∷ ideal_verdicts cs (ideal_ask c m).1

unfoldable pub verdicts : List RateCall → FixedWindowRateLimiter → List Verdict
verdicts [] l = []
verdicts (c ∷ cs) l = (ask c l).0 ∷ verdicts cs (ask c l).1

-- Every key has the same open window on both sides, at a time and later.
abbrev Simulates : ℕ → FixedWindowRateLimiter → KeyWindows → Type 0
Simulates a l m = (k : Text) (t : ℕ) → a ≤ t → live_entry t k l.entries ≡ unless_expired t (m k)

length-note_call :
    (at : ℕ) (l : FixedWindowRateLimiter) → length (note_call at l).entries ≤ length l.entries
unfolding note_call cleanup_expired delete_if
length-note_call at l =
    elim (Bool-cases (((suc l.calls % 18_446_744_073_709_551_616) % 256) == 0)) [
      | inl e ↦ rw e (length-keep_if-le (λ e. not (is_expired at e)) l.entries)
      | inr e ↦ rw e (omega arith)
    ]

length-admit :
    (k : Text) (p : Policy) (at : ℕ) (es : List RateLimitEntry) (o : Option RateLimitEntry)
    → length (admit k p at es o).1 ≤ suc (length es)
unfolding admit
length-admit k p at es none = ground (arith, length-append es (first_of_window k p at ∷ []))
length-admit k p at es (some e) = ground (
  arith,
  length-update_if (has_key k) (λ old. record (first_of_window k p at) { key = old.key }) es,
  length-update_if (has_key e.key) (λ old. record (one_more e) { key = old.key }) es,
)

-- A call adds at most one entry.
length-ask :
    (c : RateCall) (l : FixedWindowRateLimiter)
    → length (ask c l).1.entries ≤ suc (length l.entries)
unfolding allow
length-ask c l = elim (Bool-cases (is_off c.policy)) [
  | inl e ↦ rw e (omega arith)
  | inr e ↦
      let es = (note_call c.at l).entries in
      let a = length-admit c.key c.policy c.at es (find_if (has_key c.key) es) in
      let n = length-note_call c.at l in rw e (omega (arith, a, n))
]

decided :
    (k : Text) (p : Policy) (at : ℕ) (o : Option RateLimitEntry)
    (r : Verdict × FixedWindowRateLimiter)
    → Decided k p at o r
    → length r.1.entries < max_rate_limit_entries
    → (r.0 ≡ (decide k p at o).0) × (live_entry at k r.1.entries ≡ (decide k p at o).1)
decided k p at none r (inl (v, w)) few = (v, w)
decided k p at none r (inr (v, full, w)) few = absurd (omega (arith, full, few))
decided k p at (some e) r (inl (c, v, w)) few = ground (arith, c, v, w)
decided k p at (some e) r (inr (c, v, w)) few = ground (arith, c, v, w)

put_same : (k : Text) (o : Option RateLimitEntry) (m : KeyWindows) → put k o m k ≡ o
put_same k o m = rw (text_eq_refl k) refl

put_other : (j k : Text) (o : Option RateLimitEntry) (m : KeyWindows) → j ≢ k → put k o m j ≡ m j
put_other j k o m ne = elim (Bool-cases (text_eq j k)) [
  | inl e ↦ absurd (ne ((text_eq_iff j k).0 e))
  | inr e ↦ rw e refl
]

module _ (a : ℕ) (c : RateCall) (l : FixedWindowRateLimiter) (m : KeyWindows) where
  -- What a call leaves on both sides.
  limited :
      is_off c.policy ≡ false
      → Sound l
      → Simulates a l m
      → a ≤ c.at
      → length (ask c l).1.entries < max_rate_limit_entries
      → (o : Option RateLimitEntry) → unless_expired c.at (m c.key) ≡ o
      → ((ask c l).0 ≡ (decide c.key c.policy c.at o).0)
        × Simulates c.at (ask c l).1 (put c.key (decide c.key c.policy c.at o).1 m)
  limited off s sim le few o seen =
      let d =
        subst (λ w. Decided c.key c.policy c.at w (ask c l)) (sim c.key c.at le ∙ seen)
          (allow_decides c.key c.policy c.at l off s) in
      let (verdict, window) = decided c.key c.policy c.at o (ask c l) d few in
      let after = allow-Sound c.key c.policy c.at l s in
      (
        verdict,
        λ j t later. elim (Bool-cases (text_eq j c.key)) [
          | inl e ↦
              let same : j ≡ c.key = (text_eq_iff j c.key).0 e in
              rw e (
                subst
                  (λ i.
                    live_entry t i (ask c l).1.entries
                    ≡ unless_expired t (decide c.key c.policy c.at o).1)
                  (sym same)
                  (live_entry-later c.at t c.key (ask c l).1.entries after.0 later
                    ∙ ap (unless_expired t) window))
          | inr e ↦
              let other : j ≢ c.key = λ same. cc (e, (text_eq_iff j c.key).1 same) in
              rw e (
                allow_isolated t j c.key c.policy c.at l other later
                ∙ sim j t (omega (arith, le, later)))
        ],
      )

  unlimited :
      is_off c.policy ≡ true
      → Simulates a l m
      → a ≤ c.at
      → ((ask c l).0 ≡ (ideal_ask c m).0) × Simulates c.at (ask c l).1 (ideal_ask c m).1
  unfolding allow
  unlimited off sim le = rw off (refl, λ k t later. sim k t (omega (arith, le, later)))

  -- A call is answered alike, and leaves the sides alike.
  asked :
      Sound l
      → Simulates a l m
      → a ≤ c.at
      → length (ask c l).1.entries < max_rate_limit_entries
      → ((ask c l).0 ≡ (ideal_ask c m).0) × Simulates c.at (ask c l).1 (ideal_ask c m).1
  asked s sim le few = elim (Bool-cases (is_off c.policy)) [
    | inl off ↦ unlimited off sim le
    | inr on ↦ rw on (limited on s sim le few (unless_expired c.at (m c.key)) refl)
  ]

verdicts_alike :
    (a b : ℕ) (cs : List RateCall) (l : FixedWindowRateLimiter) (m : KeyWindows)
    → Sound l
    → Simulates a l m
    → Timed a b cs
    → length l.entries + length cs < max_rate_limit_entries
    → verdicts cs l ≡ ideal_verdicts cs m
unfolding verdicts ideal_verdicts
verdicts_alike a b [] l m s sim timed few = refl
verdicts_alike a b (c ∷ cs) l m s sim (le, _, timed) few =
    let grown = length-ask c l in
    let (verdict, sim') = asked a c l m s sim le (omega (arith, grown, few)) in
    let rest =
      verdicts_alike c.at b cs (ask c l).1 (ideal_ask c m).1 (allow-Sound c.key c.policy c.at l s)
        sim' timed (omega (arith, grown, few)) in
    rw (verdict, rest) refl

-- With times that do not go back, the verdicts of a new limiter on fewer than 50,000 calls are those
-- of a limiter that keeps for each key only the window it was last given: neither the cleanups nor
-- the calls on other keys nor the entries of closed windows matter.
pub verdicts-refine :
    (a b : ℕ) (cs : List RateCall)
    → Timed a b cs
    → length cs < max_rate_limit_entries
    → verdicts cs new_fixed_window_rate_limiter ≡ ideal_verdicts cs no_windows
unfolding live_entry find_if
verdicts-refine a b cs timed few =
    verdicts_alike a b cs new_fixed_window_rate_limiter no_windows
      (tt, (omega arith), (omega arith)) (λ k t later. refl) timed (omega (arith, few))
