-- ===== src/Validity/Tokens.antt =====
-- The statements on the one-time tokens keep a database well formed.
use go_spark.Base.{
  ℕ, Text, ◌≡◌, refl, inl, inr, Bool, true, Bool-cases, Option-cases, is_some, find_if, update_if,
  update_if-All, update_if-Distinct, List,
}
use go_spark.Schema.{User}
use go_spark.Effect.Invariants.{Maintains}
use go_spark.Queries.Users.{user_exists}
use go_spark.Queries.Tokens.{
  by_hash, is_valid, consumed, create_email_verification_token, consume_email_verification_token,
  prune_email_verification_tokens, create_password_reset_token, consume_password_reset_token,
  prune_password_reset_tokens, create_email_change_token, consumed_change,
  consume_email_change_token, prune_email_change_tokens,
}
use go_spark.Validity.Tables.{with_verifications, with_resets, with_changes}
use go_spark.Validity.Users.{delete-KeysValid}
use go_spark.Validity.Sessions.{append-KeysValid, append-Owned, delete-Owned}
use go_spark.Validity.{Owned, KeysValid, Valid}

-- Updates that leave the key, the hash and the user of a row alone.
module _ {A : Type 0} (p : A → Bool) (f : A → A) (rows : List A) where
  pub update-KeysValid :
      (id : A → ℕ) (hash : A → Text)
      → ((x : A) → id (f x) ≡ id x)
      → ((x : A) → hash (f x) ≡ hash x)
      → KeysValid id hash rows
      → KeysValid id hash (update_if p f rows)
  update-KeysValid id hash i h k = record {
    ids = update_if-Distinct p id f i rows k.ids;
    hashes = update_if-Distinct p hash f h rows k.hashes;
  }

  pub update-Owned :
      (owner : A → ℕ) (users : List User)
      → ((x : A) → owner (f x) ≡ owner x)
      → Owned owner users rows
      → Owned owner users (update_if p f rows)
  update-Owned owner users same o =
      update_if-All p (λ r. user_exists (owner r) users ≡ true)
        (λ r. user_exists (owner r) users ≡ true) f (λ x h _. rw (same x) h) (λ x h _. h) rows o

pub create_email_verification_token-Valid :
    (user : ℕ) (hash : Text) (expires : ℕ)
    → Maintains Valid (create_email_verification_token user hash expires)
unfolding create_email_verification_token
create_email_verification_token-Valid user hash expires = record {
  at = λ t d v. elim (Bool-cases (is_some (find_if (by_hash hash) d.email_verification_tokens))) [
    | inl taken ↦ rw taken tt
    | inr fresh ↦ rw fresh (elim (Bool-cases (user_exists user d.users)) [
      | inr lost ↦ rw lost tt
      | inl here ↦ rw here (
          with_verifications d v _
            (append-KeysValid (λ r. r.id) (λ r. r.token_hash) d.email_verification_tokens _ refl
              fresh v.verifications)
            (append-Owned (λ r. r.user_id) d.users d.email_verification_tokens _
              v.owners.verifications here))
    ])
  ];
}

pub consume_email_verification_token-Valid :
    (at : ℕ) (hash : Text) → Maintains Valid (consume_email_verification_token at hash)
unfolding consume_email_verification_token
consume_email_verification_token-Valid at hash = record {
  at = λ t d v. elim (Option-cases (find_if (is_valid hash at) d.email_verification_tokens)) [
    | inl e ↦ rw (e, consume_email_verification_token) tt
    | inr (x, e) ↦
        rw (e, consume_email_verification_token)
          (with_verifications d v _
            (update-KeysValid (is_valid hash at) (consumed at) d.email_verification_tokens
              (λ r. r.id) (λ r. r.token_hash) (λ x. refl) (λ x. refl) v.verifications)
            (update-Owned (is_valid hash at) (consumed at) d.email_verification_tokens
              (λ r. r.user_id) d.users (λ x. refl) v.owners.verifications))
  ];
}

pub prune_email_verification_tokens-Valid :
    (expired_before consumed_before : ℕ)
    → Maintains Valid (prune_email_verification_tokens expired_before consumed_before)
unfolding prune_email_verification_tokens
prune_email_verification_tokens-Valid expired_before consumed_before = record {
  at = λ t d v.
      with_verifications d v _ (delete-KeysValid _ _ _ d.email_verification_tokens v.verifications)
        (delete-Owned (λ r. r.user_id) _ d.users d.email_verification_tokens
          v.owners.verifications);
}

pub create_password_reset_token-Valid :
    (user : ℕ) (hash : Text) (expires : ℕ)
    → Maintains Valid (create_password_reset_token user hash expires)
unfolding create_password_reset_token
create_password_reset_token-Valid user hash expires = record {
  at = λ t d v. elim (Bool-cases (is_some (find_if (by_hash hash) d.password_reset_tokens))) [
    | inl taken ↦ rw taken tt
    | inr fresh ↦ rw fresh (elim (Bool-cases (user_exists user d.users)) [
      | inr lost ↦ rw lost tt
      | inl here ↦ rw here (
          with_resets d v _
            (append-KeysValid (λ r. r.id) (λ r. r.token_hash) d.password_reset_tokens _ refl fresh
              v.resets)
            (append-Owned (λ r. r.user_id) d.users d.password_reset_tokens _ v.owners.resets here))
    ])
  ];
}

pub consume_password_reset_token-Valid :
    (at : ℕ) (hash : Text) → Maintains Valid (consume_password_reset_token at hash)
unfolding consume_password_reset_token
consume_password_reset_token-Valid at hash = record {
  at = λ t d v. elim (Option-cases (find_if (is_valid hash at) d.password_reset_tokens)) [
    | inl e ↦ rw (e, consume_password_reset_token) tt
    | inr (x, e) ↦
        rw (e, consume_password_reset_token)
          (with_resets d v _
            (update-KeysValid (is_valid hash at) (consumed at) d.password_reset_tokens (λ r. r.id)
              (λ r. r.token_hash) (λ x. refl) (λ x. refl) v.resets)
            (update-Owned (is_valid hash at) (consumed at) d.password_reset_tokens (λ r. r.user_id)
              d.users (λ x. refl) v.owners.resets))
  ];
}

pub prune_password_reset_tokens-Valid :
    (expired_before consumed_before : ℕ)
    → Maintains Valid (prune_password_reset_tokens expired_before consumed_before)
unfolding prune_password_reset_tokens
prune_password_reset_tokens-Valid expired_before consumed_before = record {
  at = λ t d v.
      with_resets d v _ (delete-KeysValid _ _ _ d.password_reset_tokens v.resets)
        (delete-Owned (λ r. r.user_id) _ d.users d.password_reset_tokens v.owners.resets);
}

pub create_email_change_token-Valid :
    (user : ℕ) (new_email hash : Text) (expires : ℕ)
    → Maintains Valid (create_email_change_token user new_email hash expires)
unfolding create_email_change_token
create_email_change_token-Valid user new_email hash expires = record {
  at = λ t d v.
      elim (Bool-cases (is_some (find_if (λ r. by_hash hash r.token) d.email_change_tokens))) [
        | inl taken ↦ rw taken tt
        | inr fresh ↦ rw fresh (elim (Bool-cases (user_exists user d.users)) [
          | inr lost ↦ rw lost tt
          | inl here ↦ rw here (
              with_changes d v _
                (append-KeysValid (λ r. r.id) (λ r. r.token_hash) d.email_change_tokens _ refl fresh
                  v.changes)
                (append-Owned (λ r. r.user_id) d.users d.email_change_tokens _ v.owners.changes
                  here))
        ])
      ];
}

pub consume_email_change_token-Valid :
    (at : ℕ) (hash : Text) → Maintains Valid (consume_email_change_token at hash)
unfolding consume_email_change_token
consume_email_change_token-Valid at hash = record {
  at = λ t d v.
      elim (Option-cases (find_if (λ t. is_valid hash at t.token) d.email_change_tokens)) [
        | inl e ↦ rw (e, consume_email_change_token) tt
        | inr (x, e) ↦
            rw (e, consume_email_change_token)
              (with_changes d v _
                (update-KeysValid (λ t. is_valid hash at t.token) (consumed_change at)
                  d.email_change_tokens (λ r. r.id) (λ r. r.token_hash) (λ x. refl) (λ x. refl)
                  v.changes)
                (update-Owned (λ t. is_valid hash at t.token) (consumed_change at)
                  d.email_change_tokens (λ r. r.user_id) d.users (λ x. refl) v.owners.changes))
      ];
}

pub prune_email_change_tokens-Valid :
    (expired_before consumed_before : ℕ)
    → Maintains Valid (prune_email_change_tokens expired_before consumed_before)
unfolding prune_email_change_tokens
prune_email_change_tokens-Valid expired_before consumed_before = record {
  at = λ t d v.
      with_changes d v _ (delete-KeysValid _ _ _ d.email_change_tokens v.changes)
        (delete-Owned (λ r. r.user_id) _ d.users d.email_change_tokens v.owners.changes);
}
