-- ===== src/Examples/Passwords.antt =====
-- Passwords changed and reset on concrete data.
use go_spark.Base.{codes, ◌≡◌, refl, find_if, trim_space, text_eq, [], ◌∷◌}
use go_spark.Effect.{World}
use go_spark.Queries.Tokens.{is_valid}
use go_spark.AuthStore.Accounts
use go_spark.AuthStore.Tokens
use go_spark.Auth.Service.{AuthService, hash_token, password_matches, validate_password}
use go_spark.Auth.Passwords.{reset_password_with_token}
use go_spark.Auth.Progress.{answer_of, login_rejects, reset_password_answers}
use go_spark.Auth.Addresses.{normalize_email}
use go_spark.Auth.Sessions.{login}
use go_spark.Effect.{err, invalid_credentials}
use go_spark.Argon2id.{argon2id_hasher, Argon2idHasher, new_argon2id_hasher, hash}
use go_spark.Examples.Hashes.{argon2}
use go_spark.Examples.Fixtures.{env, service, platform, world, ann, bob, db}

-- The service with its own hasher, and a user whose password is hashed by it.
abbrev argon2id : Argon2idHasher
argon2id = new_argon2id_hasher 0 3 0 []

abbrev hashing : AuthService
hashing = record service { hasher = argon2id_hasher platform argon2 argon2id }

abbrev hashed : World
hashed = record world {
  db = record db {
    users =
        record ann { password_hash = hash platform argon2 argon2id (codes "salt") (codes "apple") }
        ∷ bob
        ∷ [];
  };
}

login_rejects_example :
    (login env service (codes "ann@a.test") (codes "wrong") world).0 ≡ err invalid_credentials
unfolding find_if text_eq normalize_email trim_space password_matches
login_rejects_example =
    login_rejects env service (λ n. refl) (codes "ann@a.test") (codes "wrong") world refl

reset_password_answers_example :
    (reset_password_with_token env service (codes "reset") (codes "apricot") world).0
    ≡ answer_of (
        find_if
          (is_valid (hash_token service (trim_space (codes "reset"))) 0)
          world.db.password_reset_tokens)
unfolding trim_space validate_password
reset_password_answers_example =
    reset_password_answers env service (λ n. refl) (codes "reset") (codes "apricot") world refl refl
