-- ===== src/Totp/Windows.antt =====
-- The windows of VerifyWithCounter in internal/totp/totp.go, and a search that stops early.
use go_spark.Base.{
  ℕ, ◌+◌, ◌*◌, ◌/◌, ◌==◌, ◌≤◌, ◌≡◌, refl, inl, inr, Text, text_eq, text_eq_iff, Bool, true, false,
  ◌&&◌, Bool-cases, Option-cases, Option, none, some, is_some, List, [], ◌∷◌, find_if, trim_space,
  byte_length, if◌then◌else◌, arith,
}
use go_spark.Effect.{Env, World, ok, ◌>>=◌}
use go_spark.Platform.{Platform}
use go_spark.Totp.{digits, period, windows, scan_windows, verify_with_counter}

abbrev is_code : Text → Option Text → Bool
is_code code none = false
is_code code (some candidate) = text_eq candidate code

is_code-true : (code : Text) (o : Option Text) → is_code code o ≡ true → o ≡ some code
is_code-true code none h = cc
is_code-true code (some candidate) h = rw ((text_eq_iff candidate code).0 h) refl

module _ (p : Platform) (secret code : Text) where
  -- Whether the library can generate the code of every window.
  abbrev pub all_generated : List ℕ → Bool
  all_generated [] = true
  all_generated (step ∷ steps) =
      is_some (p.generate_code secret (step * period)) && all_generated steps

  abbrev pub window_matches : ℕ → Bool
  window_matches step = is_code code (p.generate_code secret (step * period))

  scan-some :
      (steps : List ℕ) (m : ℕ)
      → scan_windows p secret code steps (some m) ≡ (if all_generated steps then some m else none)
  unfolding scan_windows
  scan-some [] m = refl
  scan-some (step ∷ steps) m = elim (Option-cases (p.generate_code secret (step * period))) [
    | inl e ↦ rw (e, scan_windows) refl
    | inr (t, e) ↦ ground (arith, e, scan-some steps m)
  ]

  scan-none :
      (steps : List ℕ)
      → scan_windows p secret code steps none
        ≡ (if all_generated steps then find_if window_matches steps else none)
  unfolding scan_windows find_if
  scan-none [] = refl
  scan-none (step ∷ steps) = elim (Option-cases (p.generate_code secret (step * period))) [
    | inl e ↦ rw (e, scan_windows) refl
    | inr (t, e) ↦ ground (arith, e, scan-none steps, scan-some steps step)
  ]

module _ (p : Platform) (env : Env) (secret raw : Text) where
  -- The loop that compares every window decides as a search that stops at the first match: a code
  -- of six bytes, white space trimmed, gives the first of the previous, the current and the next
  -- window whose code it is, and any other code none; where the library cannot generate the code
  -- of a window there is none either.
  pub verify_with_counter_first :
      (w : World)
      → (verify_with_counter p env secret raw w).0
        ≡ ok (
            if (byte_length (trim_space raw) == digits)
              && all_generated p secret (trim_space raw) (windows (env.clock w.step))
            then find_if (window_matches p secret (trim_space raw)) (windows (env.clock w.step))
            else none)
  unfolding verify_with_counter ◌>>=◌
  verify_with_counter_first w = elim (Bool-cases (byte_length (trim_space raw) == digits)) [
    | inl e ↦ rw e (rw (scan-none p secret (trim_space raw) (windows (env.clock w.step))) refl)
    | inr e ↦ rw e refl
  ]

  -- A counter that is returned lies within one window of the clock's, and the code is that of its
  -- window.
  pub verify_with_counter-window :
      (w : World) (step : ℕ)
      → (verify_with_counter p env secret raw w).0 ≡ ok (some step)
      → (env.clock w.step / 1_000_000_000 / period ≤ step + 1)
        × (step ≤ env.clock w.step / 1_000_000_000 / period + 1)
        × (p.generate_code secret (step * period) ≡ some (trim_space raw))
  unfolding find_if
  verify_with_counter-window w step h =
      let e = verify_with_counter_first w in
      (
        ground (arith, h, e),
        ground (arith, h, e),
        is_code-true (trim_space raw) _ (ground (arith, h, e)),
      )
