-- ===== src/Examples/SecondFactor.antt =====
-- Codes, backup codes and setups on a database with one user.
use go_spark.Base.{
  text_eq, ℕ, ◌+◌, ◌*◌, ◌<◌, ◌≡◌, ◌≢◌, refl, Text, codes, true, none, some, List, [], ◌∷◌, is_some,
  map, find_if, ◌==◌, if◌then◌else◌, update_if, count_if, delete_if, trim_space, byte_length,
  concat, fields, remove,
}
use go_spark.Schema.{UserTotp, TotpBackupCode, Session, empty_db}
use go_spark.Effect.{Env, World, ok, ◌>>=◌, is_no_rows}
use go_spark.Queries.Users.{user_exists, get_user_by_id}
use go_spark.Queries.Totp as Rows
use go_spark.Queries.Totp.{of_user, is_enabled}
use go_spark.Queries.Sessions.{create_session}
use go_spark.Validity.{Valid}
use go_spark.SecretCipher.{decrypt, encrypt}
use go_spark.Totp.{period, scan_windows, verify_with_counter, build_uri}
use go_spark.Totp.Windows.{verify_with_counter_first}
use go_spark.AuthStore.Accounts
use go_spark.AuthStore.Totp as Store
use go_spark.AuthStore.Totp.{TotpRecord, totp_record_from_db, read_record}
use go_spark.Auth.Service.{hash_token, generate_token}
use go_spark.Auth.BackupCodes.{
  normalised, hash_backup_code, generate_backup_codes, format_backup_code, generate_totp_secret,
}
use go_spark.Auth.Service.{AuthService}
use go_spark.Auth.Sessions.{AuthSession, create_session_for_user}
use go_spark.Auth.Totp.{
  verify_totp_code, consume_backup_code, verify_totp_login, confirm_totp_setup, begin_totp_setup,
  get_totp_setup_info, with_second_factor,
}
use go_spark.Auth.Totp.Replay.{verify_totp_code_fresh, consume_backup_code_once}
use go_spark.Auth.Totp.Factor.{Enabled}
use go_spark.Auth.Totp.Login.{Passes, verify_totp_login_requires}
use go_spark.Auth.Totp.Setup.{Shown}
use go_spark.Auth.Totp.Enabling.{confirm_totp_setup_enables}
use go_spark.Auth.Totp.Pending.{begin_then_info}
use go_spark.Examples.Fixtures.{env, service, platform, aead, ann}

abbrev pub factor : UserTotp
factor = record {
  id = 1;
  user_id = 1;
  secret = codes "nsecret";
  enabled_at = some 0;
  created_at = 0;
  last_used_counter = none;
}

abbrev pub backup : TotpBackupCode
backup = record { id = 1; user_id = 1; code_hash = codes "kABCD"; used_at = none; created_at = 0 }

abbrev pub enabled_world : World
enabled_world = record {
  db = record empty_db {
    users = ann ∷ [];
    user_totp = factor ∷ [];
    totp_backup_codes = backup ∷ [];
  };
  step = 0;
}

abbrev pending_world : World
pending_world = record {
  db = record empty_db { users = ann ∷ []; user_totp = record factor { enabled_at = none } ∷ [] };
  step = 0;
}

-- A user without a second factor.
abbrev plain_world : World
plain_world = record { db = record empty_db { users = ann ∷ [] }; step = 0 }

-- The code of the first window of the clock of `env`.
abbrev pub code : Text
code = 0 ∷ codes "secre"

abbrev record_of : TotpRecord
record_of = record (totp_record_from_db factor) { secret = codes "secret" }

-- Another random text at each effect.
abbrev varied : Env
varied = record env { random = λ n. (n + 200) ∷ [] }

pub enabled-Valid : Valid enabled_world.db
unfolding user_exists find_if
enabled-Valid = record {
  users = record { ids = (tt, tt); emails = (tt, tt); handles = (tt, tt) };
  sessions = record { ids = tt; hashes = tt };
  verifications = record { ids = tt; hashes = tt };
  resets = record { ids = tt; hashes = tt };
  changes = record { ids = tt; hashes = tt };
  totps = (tt, tt);
  codes = record { ids = (tt, tt); hashes = (tt, tt) };
  outbox = tt;
  owners = record {
    sessions = tt;
    verifications = tt;
    resets = tt;
    changes = tt;
    totps = (refl, tt);
    codes = (refl, tt);
    credentials = tt;
    projects = tt;
  };
}

verify_with_counter_first_example :
    (verify_with_counter platform env (codes "secret") code enabled_world).0 ≡ ok (some 0)
unfolding byte_length trim_space find_if text_eq
verify_with_counter_first_example =
    verify_with_counter_first platform env (codes "secret") code enabled_world

verifies : (verify_totp_code env service record_of code enabled_world).0 ≡ ok true
unfolding verify_totp_code verify_with_counter ◌>>=◌ trim_space byte_length scan_windows
    Rows.claim_totp_counter Store.claim_totp_counter find_if update_if count_if text_eq
verifies = refl

verify_totp_code_fresh_example :
    (counter : ℕ) × (service.generate_code (codes "secret") (counter * period)
      ≡ some (trim_space code))
    × ((r' : TotpRecord) (again : Text) (later : World)
        → r'.user_id ≡ 1
        → later.db.user_totp
          ≡ (verify_totp_code env service record_of code enabled_world).1.db.user_totp
        → (verify_totp_code env service r' again later).0 ≡ ok true
        → (next : ℕ) × (counter < next)
          × (service.generate_code r'.secret (next * period) ≡ some (trim_space again)))
verify_totp_code_fresh_example =
    verify_totp_code_fresh env service record_of code enabled_world verifies

consumes : (consume_backup_code env service 1 (codes "AB-CD") enabled_world).0 ≡ ok true
unfolding consume_backup_code hash_backup_code normalised concat fields remove ◌>>=◌
    Store.consume_totp_backup_code Rows.consume_totp_backup_code find_if update_if count_if text_eq
consumes = refl

consume_backup_code_once_example :
    (consume_backup_code env service 1
      (codes " ABCD")
      (consume_backup_code env service 1 (codes "AB-CD") enabled_world).1).0
    ≢ ok true
unfolding normalised concat fields remove
consume_backup_code_once_example =
    consume_backup_code_once env service 1 (codes "AB-CD") enabled_world consumes (codes " ABCD")
      (consume_backup_code env service 1 (codes "AB-CD") enabled_world).1 refl refl

started : AuthSession
started = record { token = codes "t"; expires_at = 104 }

logs_in : (verify_totp_login env service 1 code enabled_world).0 ≡ ok started
unfolding started verify_totp_login with_second_factor verify_totp_code verify_with_counter ◌>>=◌
    trim_space byte_length scan_windows Rows.claim_totp_counter Store.claim_totp_counter find_if
    update_if count_if text_eq create_session_for_user generate_token
    Store.get_enabled_totp_by_user_id read_record decrypt Rows.get_enabled_totp_by_user_id
    Accounts.create_session create_session user_exists
logs_in = refl

verify_totp_login_requires_example :
    (row : UserTotp) × (secret : Text) × Enabled env service 1 enabled_world row secret
    × Passes env service 1 code row secret enabled_world.db
    × (new : Session) × (new.user_id ≡ 1)
    × (new.token_hash ≡ hash_token service (codes "t"))
    × ((verify_totp_login env service 1 code enabled_world).1.db.sessions ≡ new ∷ [])
unfolding started
verify_totp_login_requires_example =
    verify_totp_login_requires env service 1 code enabled_world started enabled-Valid logs_in

abbrev shown_codes : List Text
shown_codes = map (λ n. ((n + 200) ∷ codes "---")) (3 ∷ 4 ∷ 5 ∷ 6 ∷ 7 ∷ 8 ∷ 9 ∷ 10 ∷ [])

confirms : (confirm_totp_setup varied service 1 code pending_world).0 ≡ ok shown_codes
unfolding confirm_totp_setup verify_totp_code verify_with_counter ◌>>=◌ trim_space byte_length
    scan_windows Rows.claim_totp_counter Store.claim_totp_counter find_if update_if count_if text_eq
    Store.get_totp_by_user_id read_record decrypt Rows.get_totp_by_user_id generate_backup_codes
    format_backup_code Rows.enable_totp Rows.delete_totp_backup_codes_by_user_id
    Rows.create_totp_backup_code delete_if user_exists
confirms = refl

confirm_totp_setup_enables_example :
    (row : UserTotp) × (secret : Text) × (find_if (of_user 1) pending_world.db.user_totp ≡ some row)
    × (row.enabled_at ≡ none)
    × (decrypt platform aead row.secret ≡ ok secret)
    × (counter : ℕ) × (service.generate_code secret (counter * period) ≡ some (trim_space code))
    × (is_some (
          find_if
            (is_enabled 1)
            (confirm_totp_setup varied service 1 code pending_world).1.db.user_totp)
        ≡ true)
    × Shown varied service 1 shown_codes []
        (confirm_totp_setup varied service 1 code pending_world).1.db.totp_backup_codes
confirm_totp_setup_enables_example =
    confirm_totp_setup_enables varied service 1 code pending_world shown_codes confirms

-- The draws of a setup, a secret of 32 characters and a nonce of 12, and the service with a cipher
-- of that nonce size.
abbrev secret : Text
secret = codes "JBSWY3DPEHPK3PXPKRUGS4ZANFZSA33L"

abbrev setup_env : Env
setup_env = record env { random = λ n. if n == 2 then secret else codes "twelve bytes" }

abbrev with_gcm : AuthService
with_gcm = record service { totp_secrets = record aead { nonce_size = 12 } }

begins :
    (begin_totp_setup setup_env with_gcm 1 plain_world).0
    ≡ ok (secret, codes "otpauth://totp/spark:ann@a.test?")
unfolding begin_totp_setup generate_totp_secret Accounts.get_user_by_id get_user_by_id
    Store.get_totp_by_user_id read_record decrypt Rows.get_totp_by_user_id Store.upsert_pending_totp
    Rows.upsert_pending_totp encrypt ◌>>=◌ find_if update_if build_uri is_no_rows user_exists
begins = refl

begin_then_info_example :
    (get_totp_setup_info setup_env with_gcm 1
      (begin_totp_setup setup_env with_gcm 1 plain_world).1).0
    ≡ ok (secret, codes "otpauth://totp/spark:ann@a.test?")
begin_then_info_example =
    begin_then_info setup_env with_gcm (λ t. refl) (λ nonce t. refl) (λ n. refl) 1 plain_world _
      refl begins (begin_totp_setup setup_env with_gcm 1 plain_world).1 refl refl
