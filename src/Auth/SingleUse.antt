-- ===== src/Auth/SingleUse.antt =====
-- The calls of AuthService (internal/auth/auth.go) that spend a token, made twice.
use go_spark.Base.{
  ℕ, Text, trim_space, ◌≡◌, ◌≢◌, refl, sym, ap, subst, ◌∙◌, inl, inr, true, Option, none, some,
  find_if, update_if, find_if-test, Option-cases, arith,
}
use go_spark.Schema.{User, Token, EmailChangeToken, Db}
use go_spark.Effect.{Env, World, ok, ◌>>=◌}
use go_spark.Queries.Tokens.{
  is_valid, consumed, consumed_change, consume_password_reset_token,
  consume_email_verification_token,
}
use go_spark.Queries.Users.{by_id, verified, mark_user_email_verified}
use go_spark.Validity.{Valid}
use go_spark.AuthStore.Tokens
use go_spark.Auth.Service.{AuthService, hash_token}
use go_spark.Auth.Passwords.{reset_password_with_token}
use go_spark.Auth.Accounts.{verify_email}
use go_spark.Auth.EmailChange.{confirm_email_change}
use go_spark.Auth.Revocation.{reset_sets}
use go_spark.Auth.AddressChange.{is_valid_change, confirm_email_change_moves}
use go_spark.Auth.SpentTokens.{Spent, Spent-find_if, consume-Spent}

-- The database with a verification token consumed and its user verified.
abbrev pub verified_db : Text → ℕ → ℕ → Db → Db
verified_db hash at id d = record d {
  email_verification_tokens =
      update_if (is_valid hash at) (consumed at) d.email_verification_tokens;
  users = update_if (by_id id) (verified at) d.users;
}

module _ (env : Env) (s : AuthService) where
  reset_refused :
      (token new : Text) (w : World)
      → find_if
          (is_valid (hash_token s (trim_space token)) (env.clock w.step))
          w.db.password_reset_tokens
        ≡ none
      → (reset_password_with_token env s token new w).0 ≢ ok tt
  unfolding reset_password_with_token ◌>>=◌ Tokens.consume_password_reset_token
      consume_password_reset_token
  reset_refused token new w e h = ground (arith, e)

  -- In a well-formed database, a reset that succeeds is the token's last: while the table of reset
  -- tokens is as the reset left it, every reset with the token fails, at any time, whatever else
  -- has changed and whatever password is asked for.
  pub reset_password_once :
      (token new : Text) (w : World)
      → Valid w.db
      → (reset_password_with_token env s token new w).0 ≡ ok tt
      → (again : Text) (later : World)
      → later.db.password_reset_tokens
        ≡ (reset_password_with_token env s token new w).1.db.password_reset_tokens
      → (reset_password_with_token env s token again later).0 ≢ ok tt
  reset_password_once token new w v h again later same =
      let (r, e, p) = reset_sets env s token new w _ refl h in
      let spent =
        consume-Spent (λ (t : Token). t) consumed (λ at t. refl) (hash_token s (trim_space token))
          (env.clock w.step) w.db.password_reset_tokens v.resets.hashes e in
      reset_refused token again later (
        Spent-find_if (λ (t : Token). t) consumed _ _ _
          (subst (Spent (λ (t : Token). t) consumed (hash_token s (trim_space token)))
            (sym (same ∙ ap (λ (d : Db). d.password_reset_tokens) p)) spent))

  verify_sets :
      (token : Text) (w : World) (user : User) (o : Option Token)
      → find_if
          (is_valid (hash_token s (trim_space token)) (env.clock w.step))
          w.db.email_verification_tokens
        ≡ o
      → (verify_email env s token w).0 ≡ ok user
      → (r : Token) × (old : User) × (o ≡ some r)
        × (find_if (by_id r.user_id) w.db.users ≡ some old)
        × (user ≡ verified (env.clock w.step) old)
        × ((verify_email env s token w).1.db
            ≡ verified_db (hash_token s (trim_space token)) (env.clock w.step) r.user_id w.db)
  unfolding verify_email ◌>>=◌ Tokens.verify_email_by_token_hash consume_email_verification_token
      mark_user_email_verified
  verify_sets token w user none e h = absurd (ground (arith, e))
  verify_sets token w user (some r) e h =
      elim (Option-cases (find_if (by_id r.user_id) w.db.users)) [
        | inl q ↦ absurd (ground (arith, e, q))
        | inr (old, q) ↦ (r, old, refl, q, ground (arith, e, q), ground (arith, e, q))
      ]

  -- A verification that succeeds used a token whose hash is stored, unconsumed and not expired.
  -- It returns the token's user, verified at the time of the call, stores just that, and consumes
  -- the token; nothing else changes.
  pub verify_email_verifies :
      (token : Text) (w : World) (user : User)
      → (verify_email env s token w).0 ≡ ok user
      → (r : Token) × (old : User) × (find_if
            (is_valid (hash_token s (trim_space token)) (env.clock w.step))
            w.db.email_verification_tokens
          ≡ some r)
        × (is_valid (hash_token s (trim_space token)) (env.clock w.step) r ≡ true)
        × (find_if (by_id r.user_id) w.db.users ≡ some old)
        × (user ≡ verified (env.clock w.step) old)
        × ((verify_email env s token w).1.db
            ≡ verified_db (hash_token s (trim_space token)) (env.clock w.step) r.user_id w.db)
  verify_email_verifies token w user h =
      let (r, old, e, q, same, d) = verify_sets token w user _ refl h in
      (r, old, e, find_if-test _ w.db.email_verification_tokens e, q, same, d)

  verify_refused :
      (token : Text) (w : World) (user : User)
      → find_if
          (is_valid (hash_token s (trim_space token)) (env.clock w.step))
          w.db.email_verification_tokens
        ≡ none
      → (verify_email env s token w).0 ≢ ok user
  unfolding verify_email ◌>>=◌ Tokens.verify_email_by_token_hash consume_email_verification_token
  verify_refused token w user e h = ground (arith, e)

  -- In a well-formed database, a verification that succeeds is the token's last: while the table
  -- of verification tokens is as it left it, the token verifies nobody, at any time.
  pub verify_email_once :
      (token : Text) (w : World) (user : User)
      → Valid w.db
      → (verify_email env s token w).0 ≡ ok user
      → (later : World) (other : User)
      → later.db.email_verification_tokens
        ≡ (verify_email env s token w).1.db.email_verification_tokens
      → (verify_email env s token later).0 ≢ ok other
  verify_email_once token w user v h later other same =
      let (r, old, e, q, _, p) = verify_sets token w user _ refl h in
      let spent =
        consume-Spent (λ (t : Token). t) consumed (λ at t. refl) (hash_token s (trim_space token))
          (env.clock w.step) w.db.email_verification_tokens v.verifications.hashes e in
      verify_refused token later other (
        Spent-find_if (λ (t : Token). t) consumed _ _ _
          (subst (Spent (λ (t : Token). t) consumed (hash_token s (trim_space token)))
            (sym (same ∙ ap (λ (d : Db). d.email_verification_tokens) p)) spent))

  confirm_refused :
      (token : Text) (w : World) (user : User)
      → find_if
          (is_valid_change (hash_token s (trim_space token)) (env.clock w.step))
          w.db.email_change_tokens
        ≡ none
      → (confirm_email_change env s token w).0 ≢ ok user
  confirm_refused token w user e h =
      let (row, old, m) = confirm_email_change_moves env s token w user h in absurd (cc (m.0, e))

  -- In a well-formed database, a confirmation that succeeds is the token's last: while the table
  -- of email change tokens is as it left it, the token confirms nothing, at any time.
  pub confirm_email_change_once :
      (token : Text) (w : World) (user : User)
      → Valid w.db
      → (confirm_email_change env s token w).0 ≡ ok user
      → (later : World) (other : User)
      → later.db.email_change_tokens ≡ (confirm_email_change env s token w).1.db.email_change_tokens
      → (confirm_email_change env s token later).0 ≢ ok other
  confirm_email_change_once token w user v h later other same =
      let (row, old, m) = confirm_email_change_moves env s token w user h in
      let spent =
        consume-Spent (λ (t : EmailChangeToken). t.token) consumed_change (λ at t. refl)
          (hash_token s (trim_space token)) (env.clock w.step) w.db.email_change_tokens
          v.changes.hashes m.0 in
      confirm_refused token later other (
        Spent-find_if (λ (t : EmailChangeToken). t.token) consumed_change _ _ _
          (subst
            (Spent (λ (t : EmailChangeToken). t.token) consumed_change
              (hash_token s (trim_space token)))
            (sym (same ∙ ap (λ (d : Db). d.email_change_tokens) m.1.3)) spent))
