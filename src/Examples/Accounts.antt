-- ===== src/Examples/Accounts.antt =====
-- Registration, verification and deletion of accounts, and errors, on concrete data.
use go_spark.Base.{
  ℕ, keep_if, not, codes, ◌≡◌, refl, true, some, [], ◌∷◌, find_if, trim_space, text_eq, ◌==◌,
}
use go_spark.Schema.{User, Token, EmailChangeToken}
use go_spark.Effect.{Env, World, ◌>>=◌}
use go_spark.Queries.Users.{
  by_id, get_user_by_id, verified, mark_user_email_verified, update_user_email, email_taken,
  delete_user_by_id,
}
use go_spark.Queries.Sessions.{delete_sessions_by_user_id}
use go_spark.Queries.Outbox.{enqueue_email}
use go_spark.Queries.Tokens.{is_valid, consume_email_verification_token, consume_email_change_token}
use go_spark.AuthStore.Accounts
use go_spark.AuthStore.Tokens
use go_spark.Email.Messages.{render_email_templates, new_email_change_notice_message}
use go_spark.Auth.Service.{hash_token, password_matches}
use go_spark.Auth.Accounts.{register, verify_email, delete_account}
use go_spark.Auth.EmailChange.{confirm_email_change}
use go_spark.Auth.Revocation.{is_match}
use go_spark.Auth.Atomicity.{MethodsAtomic, methods-Atomic}
use go_spark.Auth.SingleUse.{verified_db, verify_email_verifies}
use go_spark.Auth.AddressChange.{Confirmed, confirm_email_change_moves}
use go_spark.Auth.Deletion.{Deleted, delete_account_purges}
use go_spark.Auth.RegistrationLaws.{Registered, register_outcomes}
use go_spark.Examples.Fixtures.{env, service, world, ann, bob, db, reset_token}
use go_spark.Projects
use go_spark.Projects.{delete_called}
use go_spark.Projects.Scope.{perform_isolated}
use go_spark.Queries.Projects.{of_user}
use go_spark.Schema.{Project}

abbrev failing : Env
failing = record env { fails = λ n. n == 3 }

methods-Atomic_example : MethodsAtomic failing service
methods-Atomic_example = methods-Atomic failing service

register_outcomes_example :
    Registered env service
      (codes "cy@c.test")
      (codes "cherry")
      world
      (register env service (codes "cy@c.test") (codes "cherry") world).0
      (register env service (codes "cy@c.test") (codes "cherry") world).1.db
register_outcomes_example = register_outcomes env service (codes "cy@c.test") (codes "cherry") world

delete_account_purges_example :
    (is_match service (codes "apple") (find_if (by_id 1) world.db.users) ≡ true)
    × Deleted 1 world.db (delete_account env service 1 (codes "apple") world).1.db
unfolding delete_account ◌>>=◌ Accounts.get_user_by_id get_user_by_id find_if password_matches
    text_eq Accounts.delete_account delete_user_by_id
delete_account_purges_example = delete_account_purges env service 1 (codes "apple") world refl

-- A database in which Bob may verify his address, and Ann may move to a new one.
abbrev link_token : Token
link_token = record reset_token { user_id = 2; token_hash = codes "#link" }

abbrev move_token : EmailChangeToken
move_token = record {
  token = record reset_token { token_hash = codes "#move" };
  new_email = codes "ann@n.test";
}

abbrev linked : World
linked = record {
  db = record db {
    email_verification_tokens = link_token ∷ [];
    email_change_tokens = move_token ∷ [];
  };
  step = 0;
}

verify_email_verifies_example :
    (r : Token) × (old : User) × (find_if
        (is_valid (hash_token service (trim_space (codes "link"))) 0)
        linked.db.email_verification_tokens
      ≡ some r)
    × (is_valid (hash_token service (trim_space (codes "link"))) 0 r ≡ true)
    × (find_if (by_id r.user_id) linked.db.users ≡ some old)
    × (verified 0 bob ≡ verified 0 old)
    × ((verify_email env service (codes "link") linked).1.db
        ≡ verified_db (hash_token service (trim_space (codes "link"))) 0 r.user_id linked.db)
unfolding verify_email ◌>>=◌ trim_space Tokens.verify_email_by_token_hash
    consume_email_verification_token find_if text_eq hash_token mark_user_email_verified
verify_email_verifies_example =
    verify_email_verifies env service (codes "link") linked (verified 0 bob) refl

confirm_email_change_moves_example :
    (row : EmailChangeToken) × (old : User) × Confirmed env service
      (hash_token service (trim_space (codes "move")))
      0
      linked.db
      (record ann { email = codes "ann@n.test"; email_verified_at = some 0 })
      (confirm_email_change env service (codes "move") linked).1.db
      row
      old
unfolding confirm_email_change ◌>>=◌ trim_space Tokens.confirm_email_change
    consume_email_change_token find_if text_eq hash_token get_user_by_id update_user_email
    email_taken delete_sessions_by_user_id new_email_change_notice_message render_email_templates
    enqueue_email Tokens.apply_email_change
confirm_email_change_moves_example =
    confirm_email_change_moves env service (codes "move") linked
      (record ann { email = codes "ann@n.test"; email_verified_at = some 0 }) refl

abbrev project : ℕ → ℕ → Project
project id user = record { id = id; user_id = user; name = codes "p"; created_at = 0 }

abbrev with_projects : World
with_projects = record world { db = record db { projects = project 1 1 ∷ project 2 2 ∷ [] } }

perform_isolated_example :
    keep_if
      (λ p. not (of_user 1 p))
      (Projects.perform env 1 (delete_called 2) with_projects).db.projects
    ≡ project 2 2 ∷ []
unfolding keep_if
perform_isolated_example = perform_isolated env 1 (delete_called 2) with_projects
