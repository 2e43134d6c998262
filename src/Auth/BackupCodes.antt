-- ===== src/Auth/BackupCodes.antt =====
-- Backup codes and secrets of the second factor: the helpers at the end of internal/auth/totp.go.
use go_spark.Base.{ℕ, zero, suc, Text, concat, fields, remove, take, drop, List, [], ◌∷◌, ◌++◌}
use go_spark.Effect.{Env, Action, ◌>>=◌, pure, draw}
use go_spark.Platform.{Platform}

-- '-'
abbrev pub dash : ℕ
dash = b'-'

module _ (p : Platform) where
  -- White space and dashes removed, in upper case.
  unfoldable pub normalised : Text → Text
  unfolding concat fields remove
  normalised code = p.to_upper (remove dash (concat (fields code)))

  unfoldable pub hash_backup_code : Text → Text → Text
  unfolding normalised
  hash_backup_code code key = p.hex_encode (p.hmac_sha256 key (normalised code))

  -- Four groups of eight digits of the text drawn.
  unfoldable pub format_backup_code : Text → Text
  format_backup_code drawn =
      let raw = p.to_upper drawn in
      take 8 raw
      ++ dash
        ∷ (take 8 (drop 8 raw) ++ dash ∷ (take 8 (drop 16 raw) ++ dash ∷ take 8 (drop 24 raw)))

  abbrev pub with_code : Text → Text → List Text × List Text → List Text × List Text
  with_code key code (shown, hashes) = (code ∷ shown, hash_backup_code code key ∷ hashes)

  -- The codes to show, and the hashes to store.
  unfoldable pub generate_backup_codes : Env → ℕ → Text → Action (List Text × List Text)
  unfolding hash_backup_code format_backup_code
  generate_backup_codes env zero key = pure ([], [])
  generate_backup_codes env (suc n) key = do
    drawn ← draw env
    rest ← generate_backup_codes env n key
    pure (with_code key (format_backup_code drawn) rest)

-- `rand.Read`, in base 32
unfoldable pub generate_totp_secret : Env → Action Text
generate_totp_secret env = draw env
