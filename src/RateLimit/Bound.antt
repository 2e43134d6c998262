-- ===== src/RateLimit/Bound.antt =====
-- How many calls on one key the limiter allows in any span of one window.
use go_spark.Base.{
  ℕ, ◌≤◌, ◌+◌, ◌*◌, Text, text_eq_iff, ◌≡◌, refl, ap, ◌∙◌, inl, inr, false, List, [], ◌∷◌, Option,
  none, some, Bool-cases, arith, find_if,
}
use go_spark.RateLimit.{Policy}
use go_spark.RateLimit.Limiter.{
  RateLimitEntry, FixedWindowRateLimiter, new_fixed_window_rate_limiter, is_expired, is_off,
  first_of_window, one_more,
}
use go_spark.RateLimit.Windows.{live_entry, Sound, unless_expired}
use go_spark.RateLimit.Decision.{allow-Sound}
use go_spark.RateLimit.Calls.{
  RateCall, ask, run_calls, allowed_calls, Timed, Under, live_entry-later, Stepped, step_call,
}

module _ (k : Text) (p : Policy) (off : is_off p ≡ false) where
  -- In a window that stays open, the calls counted never exceed the policy's.
  open_bound :
      (a b : ℕ) (cs : List RateCall) (l : FixedWindowRateLimiter) (e : RateLimitEntry)
      → Sound l
      → Timed a b cs
      → Under k p cs
      → live_entry a k l.entries ≡ some e
      → b ≤ e.reset_at
      → e.count ≤ p.max_requests
      → allowed_calls k cs l + e.count ≤ p.max_requests
  unfolding allowed_calls
  open_bound a b [] l e s t u h r le = omega arith
  open_bound a b (c ∷ cs) l e s t u h r le =
      let at_call : live_entry c.at k l.entries ≡ some e =
        live_entry-later a c.at k l.entries s.0 t.0 ∙ ap (unless_expired c.at) h ∙ ground arith in
      let s' = allow-Sound c.key c.policy c.at l s in
      elim (step_call k p c l (some e) off s u.0 at_call) [
        | inl (other, q) ↦
            ground
              (arith, text_eq_iff c.key k, open_bound c.at b cs (ask c l).1 e s' t.2 u.1 q r le)
        | inr (same, inl (less, v, q)) ↦ ground (
          arith,
          text_eq_iff c.key k,
          v,
          open_bound c.at b cs (ask c l).1 (one_more e) s' t.2 u.1 q r (omega arith),
        )
        | inr (same, inr (full, v, q)) ↦
            ground
              (arith, text_eq_iff c.key k, v, open_bound c.at b cs (ask c l).1 e s' t.2 u.1 q r le)
      ]

  -- Without an open window, the first call that is allowed opens one that outlasts the span.
  closed_bound :
      (a b : ℕ) (cs : List RateCall) (l : FixedWindowRateLimiter)
      → Sound l
      → Timed a b cs
      → Under k p cs
      → live_entry a k l.entries ≡ none
      → b ≤ a + p.window
      → allowed_calls k cs l ≤ p.max_requests
  unfolding allowed_calls
  closed_bound a b [] l s t u h w = omega arith
  closed_bound a b (c ∷ cs) l s t u h w =
      let at_call : live_entry c.at k l.entries ≡ none =
        live_entry-later a c.at k l.entries s.0 t.0 ∙ ap (unless_expired c.at) h in
      let s' = allow-Sound c.key c.policy c.at l s in
      elim (step_call k p c l none off s u.0 at_call) [
        | inl (other, q) ↦ ground (
          arith,
          text_eq_iff c.key k,
          closed_bound c.at b cs (ask c l).1 s' t.2 u.1 q (omega arith),
        )
        | inr (same, inl (v, q)) ↦ ground (
          arith,
          off,
          text_eq_iff c.key k,
          v,
          open_bound c.at b cs (ask c l).1 (first_of_window k p c.at) s' t.2 u.1 q (omega arith)
              (ground (arith, off)),
        )
        | inr (same, inr (v, full, q)) ↦ ground (
          arith,
          text_eq_iff c.key k,
          v,
          closed_bound c.at b cs (ask c l).1 s' t.2 u.1 q (omega arith),
        )
      ]

  -- A window that is open when the span begins may end in it, and one more opens.
  straddle_bound :
      (a b : ℕ) (cs : List RateCall) (l : FixedWindowRateLimiter) (e : RateLimitEntry)
      → Sound l
      → Timed a b cs
      → Under k p cs
      → live_entry a k l.entries ≡ some e
      → e.count ≤ p.max_requests
      → b ≤ a + p.window
      → allowed_calls k cs l + e.count ≤ 2 * p.max_requests
  unfolding allowed_calls
  straddle_bound a b [] l e s t u h le w = omega arith
  straddle_bound a b (c ∷ cs) l e s t u h le w = elim (Bool-cases (is_expired c.at e)) [
    | inl gone ↦
        (let closed : live_entry c.at k l.entries ≡ none = later ∙ rw gone refl in
          omega (
            arith,
            closed_bound c.at b (c ∷ cs) l s (omega arith, t.1, t.2) u closed (omega arith),
          ))
    | inr stays ↦ (elim (step_call k p c l (some e) off s u.0 (later ∙ rw stays refl)) [
      | inl (other, q) ↦ ground (
        arith,
        text_eq_iff c.key k,
        straddle_bound c.at b cs (ask c l).1 e s' t.2 u.1 q le (omega arith),
      )
      | inr (same, inl (less, v, q)) ↦ ground (
        arith,
        text_eq_iff c.key k,
        v,
        straddle_bound c.at b cs (ask c l).1 (one_more e) s' t.2 u.1 q (omega arith) (omega arith),
      )
      | inr (same, inr (full, v, q)) ↦ ground (
        arith,
        text_eq_iff c.key k,
        v,
        straddle_bound c.at b cs (ask c l).1 e s' t.2 u.1 q le (omega arith),
      )
    ])
  ]
    where
      s' : Sound (ask c l).1
      s' = allow-Sound c.key c.policy c.at l s

      later : live_entry c.at k l.entries ≡ unless_expired c.at (some e)
      later = live_entry-later a c.at k l.entries s.0 t.0 ∙ ap (unless_expired c.at) h

  abbrev Counted : Option RateLimitEntry → Type 0
  Counted none = Unit
  Counted (some e) = e.count ≤ p.max_requests

  Counted-later : (t : ℕ) (o : Option RateLimitEntry) → Counted o → Counted (unless_expired t o)
  Counted-later t none h = h
  Counted-later t (some e) h = elim (Bool-cases (is_expired t e)) [
    | inl x ↦ rw x tt
    | inr x ↦ rw x h
  ]

  step-Counted :
      (c : RateCall) (l : FixedWindowRateLimiter) (o : Option RateLimitEntry)
      → Counted o
      → Stepped k p c o l
      → Counted (live_entry c.at k (ask c l).1.entries)
  step-Counted c l o h (inl (other, q)) = rw q h
  step-Counted c l none h (inr (same, inl (v, q))) = rw q (ground (arith, off))
  step-Counted c l none h (inr (same, inr (v, full, q))) = rw q tt
  step-Counted c l (some e) h (inr (same, inl (less, v, q))) = rw q less
  step-Counted c l (some e) h (inr (same, inr (full, v, q))) = rw q h

  run_calls-Counted :
      (a b : ℕ) (cs : List RateCall) (l : FixedWindowRateLimiter)
      → a ≤ b
      → Sound l
      → Timed a b cs
      → Under k p cs
      → Counted (live_entry a k l.entries)
      → Sound (run_calls cs l) × Counted (live_entry b k (run_calls cs l).entries)
  unfolding run_calls
  run_calls-Counted a b [] l ab s t u h =
      (s, rw (live_entry-later a b k l.entries s.0 ab) (Counted-later b _ h))
  run_calls-Counted a b (c ∷ cs) l ab s t u h =
      let here : Counted (live_entry c.at k l.entries) =
        rw (live_entry-later a c.at k l.entries s.0 t.0) (Counted-later c.at _ h) in
      run_calls-Counted c.at b cs (ask c l).1 (omega arith) (allow-Sound c.key c.policy c.at l s)
        t.2 u.1 (step-Counted c l _ here (step_call k p c l _ off s u.0 refl))

  span_bound :
      (a b : ℕ) (cs : List RateCall) (l : FixedWindowRateLimiter) (o : Option RateLimitEntry)
      → live_entry a k l.entries ≡ o
      → Sound l
      → Timed a b cs
      → Under k p cs
      → Counted o
      → b ≤ a + p.window
      → allowed_calls k cs l ≤ 2 * p.max_requests
  span_bound a b cs l none h s t u n w = omega (arith, closed_bound a b cs l s t u h w)
  span_bound a b cs l (some e) h s t u n w = omega (arith, straddle_bound a b cs l e s t u h n w)

  -- From a new limiter, calls whose times do not go back and whose calls on a key are under one
  -- policy: in any span that is no longer than the policy's window, at most twice the policy's
  -- number of calls on the key are allowed, whatever the calls before it and on other keys.
  pub window_bound :
      (a b : ℕ) (earlier span : List RateCall)
      → Timed 0 a earlier
      → Timed a b span
      → Under k p earlier
      → Under k p span
      → b ≤ a + p.window
      → allowed_calls k span (run_calls earlier new_fixed_window_rate_limiter) ≤ 2 * p.max_requests
  unfolding live_entry find_if
  window_bound a b earlier span te ts ue us w =
      let r =
        run_calls-Counted 0 a earlier new_fixed_window_rate_limiter (omega arith)
          (tt, omega arith, omega arith) te ue new-Counted in
      span_bound a b span (run_calls earlier new_fixed_window_rate_limiter) _ refl r.0 ts us r.1 w
    where
      new-Counted : Counted (live_entry 0 k [])
      new-Counted = tt
