-- ===== src/Totp.antt =====
-- One-time codes: internal/totp/totp.go. A clock reads at least thirty seconds past 1970, so the
-- window before the current one has a number; codes are texts of ASCII digits.
pub mod Windows
use go_spark.Base.{
  ℕ, ◌+◌, ◌-◌, ◌*◌, ◌/◌, ◌==◌, Text, text_eq, codes, Bool, not, ◌&&◌, Option, none, some, is_some,
  List, [], ◌∷◌, ◌++◌, trim_space, byte_length, if◌then◌else◌,
}
use go_spark.Effect.{Env, Action, ◌>>=◌, pure, now}
use go_spark.Platform.{Platform}

abbrev pub digits : ℕ
digits = 6

abbrev pub period : ℕ
period = 30

-- The windows around a time in nanoseconds.
abbrev pub windows : ℕ → List ℕ
windows at =
    let counter = at / 1_000_000_000 / period in (counter - 1) ∷ counter ∷ (counter + 1) ∷ []

module _ (p : Platform) where
  unfoldable pub build_uri : Text → Text → Text → Text
  build_uri issuer account secret =
      let query =
        (codes "secret", secret)
        ∷ (codes "issuer", issuer)
        ∷ (codes "algorithm", codes "SHA1")
        ∷ (codes "digits", codes "6")
        ∷ (codes "period", codes "30")
        ∷ [] in
      codes "otpauth://totp/"
      ++ p.path_escape issuer
      ++ codes ":"
      ++ p.path_escape account
      ++ codes "?"
      ++ p.encode_query query

  -- The loop of VerifyWithCounter over its windows: every window is compared, the first match is
  -- kept, and a code that cannot be generated ends it.
  unfoldable pub scan_windows : Text → Text → List ℕ → Option ℕ → Option ℕ
  scan_windows secret code [] matched = matched
  scan_windows secret code (step ∷ steps) matched = elim (p.generate_code secret (step * period)) [
    | none ↦ none
    | some candidate ↦
        scan_windows secret code steps
          (if text_eq candidate code && not (is_some matched) then some step else matched)
  ]

  -- The counter of the window that the code matches.
  unfoldable pub verify_with_counter : Env → Text → Text → Action (Option ℕ)
  unfolding scan_windows trim_space byte_length
  verify_with_counter env secret raw =
      let code = trim_space raw in
      if byte_length code == digits
      then (do at ← now env; pure (scan_windows secret code (windows at) none))
      else pure none
