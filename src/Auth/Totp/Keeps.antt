-- ===== src/Auth/Totp/Keeps.antt =====
-- The methods of internal/auth/totp.go and the well-formed databases.
use go_spark.Base.{ℕ, zero, suc, Text, Option, none, some, List, [], ◌∷◌}
use go_spark.Effect.{Env, Action}
use go_spark.Effect.Invariants.{Keeps, keeps_rules, Keeps-bind, Keeps-find_or}
use go_spark.Platform.{Platform}
use go_spark.Validity.{Valid}
use go_spark.Validity.Rules.{valid_rules}
use go_spark.Totp.{verify_with_counter}
use go_spark.SecretCipher.{encrypt}
use go_spark.AuthStore.Accounts
use go_spark.AuthStore.Totp
use go_spark.AuthStore.Totp.{TotpRecord, create_codes, read_record}
use go_spark.Auth.Service.{AuthService, generate_token}
use go_spark.Auth.BackupCodes.{generate_backup_codes, generate_totp_secret}
use go_spark.Auth.Sessions.{create_session_for_user}
use go_spark.Auth.Totp.{
  claim, verify_totp_code, consume_backup_code, begin_totp_setup, get_totp_setup_info,
  confirm_totp_setup, with_second_factor, disable_totp, regenerate_backup_codes, verify_totp_login,
  get_totp_status, totp_setup_state,
}

module _ (env : Env) where
  create_codes-Keeps : (user : ℕ) (hashes : List Text) → Keeps Valid (create_codes env user hashes)
  unfolding create_codes
  create_codes-Keeps user [] = search (keeps_rules)
  create_codes-Keeps user (hash ∷ hashes) =
      Keeps-bind _ _ (search (keeps_rules, valid_rules)) (λ _. create_codes-Keeps user hashes)

  generate_backup_codes-Keeps :
      (p : Platform) (n : ℕ) (key : Text) → Keeps Valid (generate_backup_codes p env n key)
  unfolding generate_backup_codes
  generate_backup_codes-Keeps p zero key = search (keeps_rules)
  generate_backup_codes-Keeps p (suc n) key =
      Keeps-bind _ _ (search (keeps_rules))
        (λ _. Keeps-bind _ _ (generate_backup_codes-Keeps p n key) (λ _. search (keeps_rules)))

  verify_with_counter-Keeps :
      (p : Platform) (secret code : Text) → Keeps Valid (verify_with_counter p env secret code)
  unfolding verify_with_counter
  verify_with_counter-Keeps p secret code = search (keeps_rules) depth 20

module _ (env : Env) (s : AuthService) where
  claim-Keeps : (user : ℕ) (o : Option ℕ) → Keeps Valid (claim env s user o)
  unfolding Totp.claim_totp_counter
  claim-Keeps user none = search (keeps_rules)
  claim-Keeps user (some counter) = search (keeps_rules, valid_rules) depth 20

  verify_totp_code-Keeps :
      (r : TotpRecord) (code : Text) → Keeps Valid (verify_totp_code env s r code)
  unfolding verify_totp_code
  verify_totp_code-Keeps r code =
      search (keeps_rules, verify_with_counter-Keeps, claim-Keeps) depth 20

  consume_backup_code-Keeps :
      (user : ℕ) (code : Text) → Keeps Valid (consume_backup_code env s user code)
  unfolding consume_backup_code Totp.consume_totp_backup_code
  consume_backup_code-Keeps user code = search (keeps_rules, valid_rules) depth 20

  with_second_factor-Keeps :
      {A : Type 0} (id : ℕ) (code : Text) (action : Action A)
      → Keeps Valid action
      → Keeps Valid (with_second_factor env s id code action)
  unfolding with_second_factor Totp.get_enabled_totp_by_user_id read_record
  with_second_factor-Keeps id code action k =
      Keeps-find_or _ _ _ (search (keeps_rules, valid_rules) depth 20) (search (keeps_rules))
        (λ r. search (keeps_rules, verify_totp_code-Keeps, consume_backup_code-Keeps) depth 20)

  pub begin_totp_setup-Keeps : (id : ℕ) → Keeps Valid (begin_totp_setup env s id)
  unfolding begin_totp_setup generate_totp_secret Accounts.get_user_by_id Totp.get_totp_by_user_id
      read_record Totp.upsert_pending_totp encrypt
  begin_totp_setup-Keeps id = search (keeps_rules, valid_rules) depth 20

  pub get_totp_setup_info-Keeps : (id : ℕ) → Keeps Valid (get_totp_setup_info env s id)
  unfolding get_totp_setup_info Accounts.get_user_by_id Totp.get_totp_by_user_id read_record
  get_totp_setup_info-Keeps id = search (keeps_rules, valid_rules) depth 20

  pub confirm_totp_setup-Keeps :
      (id : ℕ) (code : Text) → Keeps Valid (confirm_totp_setup env s id code)
  unfolding confirm_totp_setup Totp.get_totp_by_user_id read_record
      Totp.enable_totp_with_backup_codes
  confirm_totp_setup-Keeps id code =
      search
        (
          keeps_rules, valid_rules, verify_totp_code-Keeps, generate_backup_codes-Keeps,
          create_codes-Keeps,
        )
        depth 20

  pub disable_totp-Keeps : (id : ℕ) (code : Text) → Keeps Valid (disable_totp env s id code)
  unfolding disable_totp Totp.delete_totp_and_backup_codes
  disable_totp-Keeps id code =
      with_second_factor-Keeps id code _ (search (keeps_rules, valid_rules) depth 20)

  pub regenerate_backup_codes-Keeps :
      (id : ℕ) (code : Text) → Keeps Valid (regenerate_backup_codes env s id code)
  unfolding regenerate_backup_codes Totp.replace_backup_codes
  regenerate_backup_codes-Keeps id code =
      with_second_factor-Keeps id code _ (
        search (keeps_rules, valid_rules, generate_backup_codes-Keeps, create_codes-Keeps) depth 20)

  pub verify_totp_login-Keeps :
      (id : ℕ) (code : Text) → Keeps Valid (verify_totp_login env s id code)
  unfolding verify_totp_login create_session_for_user generate_token Accounts.create_session
  verify_totp_login-Keeps id code =
      with_second_factor-Keeps id code _ (search (keeps_rules, valid_rules) depth 20)

  pub get_totp_status-Keeps : (id : ℕ) → Keeps Valid (get_totp_status env s id)
  unfolding get_totp_status Totp.get_enabled_totp_by_user_id read_record
      Totp.count_unused_totp_backup_codes
  get_totp_status-Keeps id = search (keeps_rules, valid_rules) depth 20

  pub totp_setup_state-Keeps : (id : ℕ) → Keeps Valid (totp_setup_state env s id)
  unfolding totp_setup_state Totp.get_totp_by_user_id read_record
  totp_setup_state-Keeps id = search (keeps_rules, valid_rules) depth 20
