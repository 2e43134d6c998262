-- ===== src/Examples/Sessions.antt =====
-- Tokens used twice, and sessions from login to logout, on a database with one user.
use go_spark.Base.{
  codes, ◌≡◌, ◌≢◌, refl, some, [], ◌∷◌, find_if, trim_space, update_if, keep_if, delete_if, text_eq,
  arith, All, not,
}
use go_spark.Schema.{User}
use go_spark.Effect.{World, ok, ◌>>=◌, is_no_rows}
use go_spark.Queries.Users.{
  user_exists, update_user_password_hash, get_user_by_id, get_user_by_email, update_user_email,
  email_taken,
}
use go_spark.Queries.Sessions
use go_spark.Queries.Outbox.{enqueue_email}
use go_spark.Queries.Tokens.{consume_password_reset_token, consume_email_change_token}
use go_spark.Queries.Totp.{get_enabled_totp_by_user_id}
use go_spark.Validity.{Valid}
use go_spark.AuthStore.Accounts
use go_spark.AuthStore.Tokens
use go_spark.Email.Messages.{render_email_templates, new_email_change_notice_message}
use go_spark.Auth.Service.{
  hash_token, hash_password, password_matches, validate_password, generate_token,
}
use go_spark.Auth.Addresses.{normalize_email}
use go_spark.Auth.Passwords.{reset_password_with_token, set_password_and_revoke_sessions}
use go_spark.Auth.EmailChange.{confirm_email_change}
use go_spark.Auth.Sessions.{
  login, login_user, create_session_for_user, user_by_session_token, logout, revoke_session_by_id,
  revoke_other_sessions,
}
use go_spark.Auth.SingleUse.{reset_password_once, confirm_email_change_once}
use go_spark.Auth.SessionLaws.{Login, login_outcomes}
use go_spark.Auth.SessionTokens.{login_then_session, logout_ends}
use go_spark.Auth.SessionRevocation.{
  RevokedOne, revoke_session_by_id_spares, revoke_other_sessions_spares,
}
use go_spark.Examples.Fixtures.{env, service, ann, reset_token, session, world}
use go_spark.Schema.{empty_db}

abbrev one : World
one = record {
  db = record empty_db {
    users = ann ∷ [];
    sessions = session 1 1 (codes "#one") ∷ [];
    email_verification_tokens = record reset_token { token_hash = codes "#link" } ∷ [];
    password_reset_tokens = reset_token ∷ [];
    email_change_tokens =
        record {
          token = record reset_token { token_hash = codes "#move" };
          new_email = codes "ann@n.test";
        }
        ∷ [];
  };
  step = 0;
}

one-Valid : Valid one.db
unfolding user_exists find_if
one-Valid = record {
  users = record { ids = (tt, tt); emails = (tt, tt); handles = (tt, tt) };
  sessions = record { ids = (tt, tt); hashes = (tt, tt) };
  verifications = record { ids = (tt, tt); hashes = (tt, tt) };
  resets = record { ids = (tt, tt); hashes = (tt, tt) };
  changes = record { ids = (tt, tt); hashes = (tt, tt) };
  totps = tt;
  codes = record { ids = tt; hashes = tt };
  outbox = tt;
  owners = record {
    sessions = (refl, tt);
    verifications = (refl, tt);
    resets = (refl, tt);
    changes = (refl, tt);
    totps = tt;
    codes = tt;
    credentials = tt;
    projects = tt;
  };
}

reset_password_once_example :
    (reset_password_with_token env service
      (codes "reset")
      (codes "again")
      (reset_password_with_token env service (codes "reset") (codes "apricot") one).1).0
    ≢ ok tt
unfolding reset_password_with_token ◌>>=◌ trim_space hash_token Tokens.consume_password_reset_token
    consume_password_reset_token find_if password_matches validate_password text_eq
    set_password_and_revoke_sessions hash_password Accounts.set_password_and_revoke_sessions
    update_user_password_hash update_if Sessions.delete_sessions_by_user_id delete_if
reset_password_once_example =
    reset_password_once env service (codes "reset") (codes "apricot") one one-Valid refl
      (codes "again") _ refl

abbrev moved_ann : User
moved_ann = record ann { email = codes "ann@n.test"; email_verified_at = some 0 }

confirm_email_change_once_example :
    (confirm_email_change env service
      (codes "move")
      (confirm_email_change env service (codes "move") one).1).0
    ≢ ok ann
unfolding confirm_email_change ◌>>=◌ trim_space Tokens.confirm_email_change
    consume_email_change_token find_if text_eq hash_token get_user_by_id update_user_email
    email_taken Sessions.delete_sessions_by_user_id new_email_change_notice_message
    render_email_templates enqueue_email Tokens.apply_email_change
confirm_email_change_once_example =
    confirm_email_change_once env service (codes "move") one moved_ann one-Valid refl _ ann refl

login_outcomes_example :
    Login env service
      (codes "ann@a.test")
      (codes "apple")
      one.db
      (login env service (codes "ann@a.test") (codes "apple") one).0
      (login env service (codes "ann@a.test") (codes "apple") one).1.db
login_outcomes_example = login_outcomes env service (codes "ann@a.test") (codes "apple") one

login_then_session_example :
    (user_by_session_token env service
      (codes "t")
      (login env service (codes "ann@a.test") (codes "apple") one).1).0
    ≡ ok ann
unfolding login ◌>>=◌ Accounts.get_user_by_email get_user_by_email find_if normalize_email
    trim_space text_eq password_matches login_user is_no_rows get_enabled_totp_by_user_id
    create_session_for_user generate_token Accounts.create_session Sessions.create_session
    hash_token user_exists
login_then_session_example =
    login_then_session env service (codes "ann@a.test") (codes "apple") one ann
      (record { token = codes "t"; expires_at = 103 }) _ one-Valid refl refl refl refl refl
      (omega arith)

logout_ends_example :
    ((later : World) (u : User)
      → later.db.sessions ≡ (logout env service (codes "one") one).1.db.sessions
      → (user_by_session_token env service (codes "one") later).0 ≢ ok u)
    × ((logout env service (codes "one") one).1.db ≡ record one.db {
      sessions =
          keep_if
            (λ r. not (text_eq r.token_hash (hash_token service (trim_space (codes "one")))))
            one.db.sessions;
    })
unfolding logout ◌>>=◌ Accounts.delete_session_by_token_hash Sessions.delete_session_by_token_hash
    trim_space
logout_ends_example = logout_ends env service (codes "one") one refl

revoke_session_by_id_spares_example :
    RevokedOne 3 1
      (hash_token service (trim_space (codes "one")))
      world.db
      (revoke_session_by_id env service 1 (codes "one") 3 world).0
      (revoke_session_by_id env service 1 (codes "one") 3 world).1.db
    × (keep_if
          (Sessions.by_hash (hash_token service (trim_space (codes "one"))))
          (revoke_session_by_id env service 1 (codes "one") 3 world).1.db.sessions
        ≡ keep_if
            (Sessions.by_hash (hash_token service (trim_space (codes "one"))))
            world.db.sessions)
revoke_session_by_id_spares_example =
    revoke_session_by_id_spares env service 1 (codes "one") 3 world

revoke_other_sessions_spares_example :
    All
      (λ r. r.user_id ≡ 1 → r.token_hash ≡ hash_token service (trim_space (codes "one")))
      (revoke_other_sessions env service 1 (codes "one") world).1.db.sessions
    × ((revoke_other_sessions env service 1 (codes "one") world).1.db ≡ record world.db {
      sessions =
          keep_if
            (λ r. not (Sessions.is_other 1 (hash_token service (trim_space (codes "one"))) r))
            world.db.sessions;
    })
unfolding revoke_other_sessions ◌>>=◌ Accounts.delete_other_sessions Sessions.delete_other_sessions
    trim_space
revoke_other_sessions_spares_example =
    revoke_other_sessions_spares env service 1 (codes "one") world refl
