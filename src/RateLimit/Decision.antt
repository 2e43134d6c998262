-- ===== src/RateLimit/Decision.antt =====
-- What a call of the limiter decides, seen through the entries whose window is still open.
use go_spark.Base.{
  ℕ, suc, ◌≤◌, ◌<◌, ◌-◌, ◌%◌, ◌==◌, Text, text_eq_iff, text_eq_refl, ◌≡◌, ◌≢◌, refl, sym, ap, subst,
  ◌∙◌, ◌⊎◌, inl, inr, true, false, not, ltb, leb, List, [], ◌∷◌, ◌++◌, Option, none, some, All-map,
  find_if, find_if-test, find_if-none, keep_if-Distinct, delete_if, Distinct-append, length,
  length-append, length-keep_if-le, length-update_if, Bool-cases, arith,
}
use go_spark.RateLimit.{Policy}
use go_spark.RateLimit.Limiter.{
  RateLimitEntry, FixedWindowRateLimiter, Verdict, has_key, is_expired, is_off, cleanup_expired,
  note_call, admit, allow, store, first_of_window, one_more, max_rate_limit_entries,
}
use go_spark.RateLimit.Windows.{
  is_live, live_entry, Keys, Sound, unless_expired, live_entry-found, live_entry-note_call,
  find_if-store, find_if-store_other, find_if-append_none, find_if-append_other, store-Keys,
}

note_call-Sound : (at : ℕ) (l : FixedWindowRateLimiter) → Sound l → Sound (note_call at l)
unfolding note_call cleanup_expired delete_if
note_call-Sound at l s =
    elim (Bool-cases (((suc l.calls % 18_446_744_073_709_551_616) % 256) == 0)) [
      | inl e ↦ rw e (
        keep_if-Distinct _ (λ e. e.key) l.entries s.0,
        ground (arith, s, length-keep_if-le (λ e. not (is_expired at e)) l.entries),
        ground arith,
      )
      | inr e ↦ rw e (s.0, s.1, ground (arith, s, e))
    ]

admit-Sound :
    (k : Text) (p : Policy) (at : ℕ) (es : List RateLimitEntry) (o : Option RateLimitEntry)
    → find_if (has_key k) es ≡ o
    → Keys es
    → length es ≤ max_rate_limit_entries
    → Keys (admit k p at es o).1 × (length (admit k p at es o).1 ≤ max_rate_limit_entries)
unfolding admit
admit-Sound k p at es none h d le = elim (Bool-cases (leb max_rate_limit_entries (length es))) [
  | inl e ↦ rw e (d, le)
  | inr e ↦ rw e (
    Distinct-append (λ e. e.key) es _ d
        (All-map (λ x. has_key k x ≡ false) (λ x. x.key ≢ k)
          (λ x miss same. cc ((text_eq_iff x.key k).1 same)) es (find_if-none (has_key k) es h)),
    ground (arith, e, length-append es (first_of_window k p at ∷ [])),
  )
]
admit-Sound k p at es (some e) h d le = elim (Bool-cases (is_expired at e)) [
  | inl x ↦ rw x (
    store-Keys (first_of_window k p at) es d,
    omega (
      arith,
      length-update_if (has_key k) (λ old. record (first_of_window k p at) { key = old.key }) es,
    ),
  )
  | inr x ↦ elim (Bool-cases (ltb e.count p.max_requests)) [
    | inl y ↦
        rw (x, y)
          (
            store-Keys (one_more e) es d,
            omega (
              arith,
              length-update_if (has_key e.key) (λ old. record (one_more e) { key = old.key }) es,
            ),
          )
    | inr y ↦ rw (x, y) (d, le)
  ]
]

-- Every call keeps the limiter sound: the table never has more than 50,000 entries, no key has
-- two of them, and fewer than 256 calls separate two cleanups.
pub allow-Sound :
    (k : Text) (p : Policy) (at : ℕ) (l : FixedWindowRateLimiter)
    → Sound l
    → Sound (allow k p at l).1
unfolding allow
allow-Sound k p at l s = elim (Bool-cases (is_off p)) [
  | inl e ↦ rw e s
  | inr e ↦
      (let n = note_call-Sound at l s in
        let a = admit-Sound k p at (note_call at l).entries _ refl n.0 n.1 in rw e (a.0, a.1, n.2))
]

-- What the verdict and the open window of the key are to be, by the window open before the call.
abbrev pub Decided :
    Text → Policy → ℕ → Option RateLimitEntry → Verdict × FixedWindowRateLimiter → Type 0
Decided k p at none r =
    ((r.0 ≡ (true, 0)) × (live_entry at k r.1.entries ≡ some (first_of_window k p at)))
    ⊎ ((r.0 ≡ (false, p.window))
        × (length r.1.entries ≡ max_rate_limit_entries)
        × (live_entry at k r.1.entries ≡ none))
Decided k p at (some e) r =
    ((e.count < p.max_requests)
      × (r.0 ≡ (true, 0))
      × (live_entry at k r.1.entries ≡ some (one_more e)))
    ⊎ ((p.max_requests ≤ e.count)
        × (r.0 ≡ (false, e.reset_at - at))
        × (live_entry at k r.1.entries ≡ some e))

live_entry-store :
    (at : ℕ) (e : RateLimitEntry) (es : List RateLimitEntry) {old : RateLimitEntry}
    → Keys es
    → find_if (has_key e.key) es ≡ some old
    → live_entry at e.key (store e es) ≡ unless_expired at (some e)
live_entry-store at e es d h =
    live_entry-found at e.key (store e es) (store-Keys e es d)
    ∙ ap (unless_expired at) (find_if-store e es h)

module _ (k : Text) (p : Policy) (at : ℕ) (es : List RateLimitEntry) where
  abbrev with_calls : ℕ → Verdict × List RateLimitEntry → Verdict × FixedWindowRateLimiter
  with_calls n r = (r.0, record { entries = r.1; calls = n })

  admit-Decided :
      (n : ℕ) (o : Option RateLimitEntry)
      → is_off p ≡ false
      → Keys es
      → length es ≤ max_rate_limit_entries
      → find_if (has_key k) es ≡ o
      → Decided k p at (unless_expired at o) (with_calls n (admit k p at es o))
  unfolding admit live_entry
  admit-Decided n none off d le h = elim (Bool-cases (leb max_rate_limit_entries (length es))) [
    | inl e ↦
        rw e
          (inr (refl, ground (arith, e, le), live_entry-found at k es d ∙ ap (unless_expired at) h))
    | inr e ↦ rw e (inl (refl, fresh))
  ]
    where
      fresh : live_entry at k (es ++ first_of_window k p at ∷ []) ≡ some (first_of_window k p at)
      fresh = ground (
        arith,
        off,
        text_eq_refl k,
        live_entry-found at k es d,
        find_if-append_none (is_live at k) es (first_of_window k p at),
      )
  admit-Decided n (some e) off d le h = elim (Bool-cases (is_expired at e)) [
    | inl x ↦
        rw x (inl (refl, live_entry-store at (first_of_window k p at) es d h ∙ ground (arith, off)))
    | inr x ↦ elim (Bool-cases (ltb e.count p.max_requests)) [
      | inl y ↦
          rw (x, y)
            (inl (
              ground (arith, y),
              refl,
              subst (λ j. live_entry at j (store (one_more e) es) ≡ some (one_more e)) same
                  (live_entry-store at (one_more e) es {old = e} d
                      (subst (λ j. find_if (has_key j) es ≡ some e) (sym same) h)
                    ∙ rw x refl),
            ))
      | inr y ↦
          rw (x, y)
            (inr (
              ground (arith, y),
              refl,
              live_entry-found at k es d ∙ ap (unless_expired at) h ∙ rw x refl,
            ))
    ]
  ]
    where
      same : e.key ≡ k
      same = (text_eq_iff e.key k).0 (find_if-test (has_key k) es h)

-- A limited call is decided by the open window of its key alone. Without one the call is allowed
-- and opens a window, unless the table is full after the cleanup: then it is rejected and nothing
-- opens. With one, the call is allowed and counted while fewer than the policy's calls are
-- counted, and else rejected until the window ends, with the window left as it is.
pub allow_decides :
    (k : Text) (p : Policy) (at : ℕ) (l : FixedWindowRateLimiter)
    → is_off p ≡ false
    → Sound l
    → Decided k p at (live_entry at k l.entries) (allow k p at l)
unfolding allow
allow_decides k p at l off s =
    let n = note_call-Sound at l s in
    let l' = note_call at l in
    let seen : live_entry at k l.entries ≡ unless_expired at (find_if (has_key k) l'.entries) =
      sym (live_entry-note_call at at k l (omega arith)) ∙ live_entry-found at k l'.entries n.0 in
    rw (off, seen) (admit-Decided k p at l'.entries l'.calls _ off n.0 n.1 refl)

other_key : (t : ℕ) (j k : Text) (e : RateLimitEntry) → j ≢ k → e.key ≡ k → is_live t j e ≡ false
other_key t j k e ne h = elim (Bool-cases (has_key j e)) [
  | inl g ↦ absurd (ne (sym ((text_eq_iff e.key j).0 g) ∙ h))
  | inr g ↦ rw g refl
]

admit-other :
    (t : ℕ) (j k : Text) (p : Policy) (at : ℕ) (es : List RateLimitEntry)
    (o : Option RateLimitEntry)
    → j ≢ k
    → find_if (has_key k) es ≡ o
    → live_entry t j (admit k p at es o).1 ≡ live_entry t j es
unfolding admit live_entry
admit-other t j k p at es none ne h = ground (
  arith,
  find_if-append_other (is_live t j) es (first_of_window k p at) (other_key t j k _ ne refl),
)
admit-other t j k p at es (some e) ne h =
    let same : e.key ≡ k = (text_eq_iff e.key k).0 (find_if-test (has_key k) es h) in
    ground (
      arith,
      find_if-store_other (is_live t j) (first_of_window k p at) es (λ x q. other_key t j k x ne q),
      find_if-store_other (is_live t j) (one_more e) es (λ x q. other_key t j k x ne (q ∙ same)),
    )

-- A call leaves the open windows of every other key as they are, at its own time and later.
pub allow_isolated :
    (t : ℕ) (j k : Text) (p : Policy) (at : ℕ) (l : FixedWindowRateLimiter)
    → j ≢ k
    → at ≤ t
    → live_entry t j (allow k p at l).1.entries ≡ live_entry t j l.entries
unfolding allow
allow_isolated t j k p at l ne le = elim (Bool-cases (is_off p)) [
  | inl e ↦ rw e refl
  | inr e ↦
      rw e (
        admit-other t j k p at (note_call at l).entries _ ne refl
        ∙ live_entry-note_call at t j l le)
]
