-- ===== src/AuthStore/Totp.antt =====
-- The store of second factors: internal/auth/totp_store.go.
use go_spark.Base.{ℕ, Text, Bool, Option, ltb, List, [], ◌∷◌}
use go_spark.Schema.{UserTotp}
use go_spark.Effect.{Env, Action, ◌>>=◌, ◌>>◌, pure, lift, exec, with_tx}
use go_spark.Platform.{Platform, Aead}
use go_spark.SecretCipher.{encrypt, decrypt}
use go_spark.Queries.Totp

pub record TotpRecord : Type 0 where
  pub id : ℕ
  pub user_id : ℕ
  pub secret : Text
  pub enabled_at : Option ℕ
  pub last_used_counter : Option ℕ
  pub created_at : ℕ

abbrev pub totp_record_from_db : UserTotp → TotpRecord
totp_record_from_db row = record {
  id = row.id;
  user_id = row.user_id;
  secret = row.secret;
  enabled_at = row.enabled_at;
  last_used_counter = row.last_used_counter;
  created_at = row.created_at;
}

module _ (env : Env) where
  module _ (p : Platform) (c : Aead) where
    -- The record of a row, its secret decrypted.
    unfoldable pub read_record : UserTotp → Action TotpRecord
    unfolding decrypt
    read_record row = do
      secret ← lift (decrypt p c row.secret)
      pure (record (totp_record_from_db row) { secret = secret })

    unfoldable pub get_totp_by_user_id : ℕ → Action TotpRecord
    unfolding read_record
    get_totp_by_user_id user = do row ← exec env (Totp.get_totp_by_user_id user); read_record row

    unfoldable pub get_enabled_totp_by_user_id : ℕ → Action TotpRecord
    unfolding read_record
    get_enabled_totp_by_user_id user = do
      row ← exec env (Totp.get_enabled_totp_by_user_id user)
      read_record row

    unfoldable pub upsert_pending_totp : ℕ → Text → Action (Unit {0})
    unfolding encrypt
    upsert_pending_totp user secret = do
      encrypted ← encrypt p c env secret
      exec env (Totp.upsert_pending_totp user encrypted)

  -- The loop over the new hashes.
  unfoldable pub create_codes : ℕ → List Text → Action (Unit {0})
  create_codes user [] = pure tt
  create_codes user (hash ∷ hashes) = do
    exec env (Totp.create_totp_backup_code user hash)
    create_codes user hashes

  unfoldable pub enable_totp_with_backup_codes : ℕ → ℕ → List Text → Action (Unit {0})
  unfolding create_codes
  enable_totp_with_backup_codes user at hashes = with_tx env do
    exec env (Totp.enable_totp at user)
    exec env (Totp.delete_totp_backup_codes_by_user_id user)
    create_codes user hashes

  unfoldable pub replace_backup_codes : ℕ → List Text → Action (Unit {0})
  unfolding create_codes
  replace_backup_codes user hashes =
      with_tx env
        do exec env (Totp.delete_totp_backup_codes_by_user_id user); create_codes user hashes

  unfoldable pub delete_totp_and_backup_codes : ℕ → Action (Unit {0})
  delete_totp_and_backup_codes user = with_tx env do
    exec env (Totp.delete_totp_backup_codes_by_user_id user)
    exec env (Totp.delete_totp_by_user_id user)

  unfoldable pub consume_totp_backup_code : ℕ → Text → ℕ → Action Bool
  consume_totp_backup_code user hash at = do
    rows ← exec env (Totp.consume_totp_backup_code at user hash)
    pure (ltb 0 rows)

  unfoldable pub claim_totp_counter : ℕ → ℕ → Action Bool
  claim_totp_counter user counter = do
    rows ← exec env (Totp.claim_totp_counter counter user)
    pure (ltb 0 rows)

  unfoldable pub count_unused_totp_backup_codes : ℕ → Action ℕ
  count_unused_totp_backup_codes user = exec env (Totp.count_unused_totp_backup_codes user)
