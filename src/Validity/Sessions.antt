-- ===== src/Validity/Sessions.antt =====
-- The statements on sessions keep a database well formed.
use go_spark.Base.{
  ℕ, suc, Text, text_eq, List, [], ◌∷◌, ◌++◌, ◌≡◌, refl, inl, inr, Bool, true, false, not,
  All-append, Bool-cases, is_some, find_if, delete_if, keep_if-All, max_key, max_key_fresh,
  fresh_text, Distinct-append,
}
use go_spark.Schema.{Session, User, Db}
use go_spark.Effect.Invariants.{Maintains}
use go_spark.Queries.Users.{user_exists}
use go_spark.Queries.Sessions.{
  by_hash, owned_by, new_session, create_session, delete_session_by_token_hash,
  delete_expired_sessions, delete_sessions_by_user_id, is_other, delete_other_sessions, is_target,
  delete_session_by_id,
}
use go_spark.Validity.Tables.{with_sessions}
use go_spark.Validity.Users.{delete-KeysValid}
use go_spark.Validity.{Owned, KeysValid, Valid}

pub delete-Owned :
    {A : Type 0} (owner : A → ℕ) (p : A → Bool) (users : List User) (rows : List A)
    → Owned owner users rows
    → Owned owner users (delete_if p rows)
unfolding delete_if
delete-Owned owner p users rows o =
    keep_if-All (λ x. not (p x)) (λ r. user_exists (owner r) users ≡ true) rows o

-- Any deletion of sessions.
delete-Valid :
    (p : Session → Bool) (d : Db) → Valid d → Valid (record d { sessions = delete_if p d.sessions })
delete-Valid p d v =
    with_sessions d v _ (delete-KeysValid _ _ p d.sessions v.sessions)
      (delete-Owned (λ r. r.user_id) p d.users d.sessions v.owners.sessions)

-- A row with a new key, a new hash and an existing user may be appended.
pub append-KeysValid :
    {A : Type 0} (id : A → ℕ) (hash : A → Text) (rows : List A) (row : A)
    → id row ≡ suc (max_key id rows)
    → is_some (find_if (λ r. text_eq (hash r) (hash row)) rows) ≡ false
    → KeysValid id hash rows
    → KeysValid id hash (rows ++ row ∷ [])
append-KeysValid id hash rows row key fresh k = record {
  ids = Distinct-append id rows row k.ids (rw key (max_key_fresh id rows));
  hashes = Distinct-append hash rows row k.hashes (fresh_text hash (hash row) rows fresh);
}

pub append-Owned :
    {A : Type 0} (owner : A → ℕ) (users : List User) (rows : List A) (row : A)
    → Owned owner users rows
    → user_exists (owner row) users ≡ true
    → Owned owner users (rows ++ row ∷ [])
append-Owned owner users rows row o h =
    All-append (λ r. user_exists (owner r) users ≡ true) rows (row ∷ []) o (h, tt)

pub create_session-Valid :
    (user : ℕ) (hash : Text) (expires : ℕ) → Maintains Valid (create_session user hash expires)
unfolding create_session
create_session-Valid user hash expires = record {
  at = λ t d v. elim (Bool-cases (is_some (find_if (by_hash hash) d.sessions))) [
    | inl taken ↦ rw taken tt
    | inr fresh ↦ rw fresh (elim (Bool-cases (user_exists user d.users)) [
      | inr lost ↦ rw lost tt
      | inl here ↦ rw here (
          with_sessions d v _
            (append-KeysValid (λ r. r.id) (λ r. r.token_hash) d.sessions _ refl fresh v.sessions)
            (append-Owned (λ r. r.user_id) d.users d.sessions
              (new_session user hash expires t d.sessions) v.owners.sessions here))
    ])
  ];
}

pub delete_session_by_token_hash-Valid :
    (hash : Text) → Maintains Valid (delete_session_by_token_hash hash)
unfolding delete_session_by_token_hash
delete_session_by_token_hash-Valid hash = record { at = λ t d. delete-Valid (by_hash hash) d }

pub delete_expired_sessions-Valid : (before : ℕ) → Maintains Valid (delete_expired_sessions before)
unfolding delete_expired_sessions
delete_expired_sessions-Valid before = record { at = λ t d. delete-Valid _ d }

pub delete_sessions_by_user_id-Valid :
    (user : ℕ) → Maintains Valid (delete_sessions_by_user_id user)
unfolding delete_sessions_by_user_id
delete_sessions_by_user_id-Valid user = record { at = λ t d. delete-Valid (owned_by user) d }

pub delete_other_sessions-Valid :
    (user : ℕ) (hash : Text) → Maintains Valid (delete_other_sessions user hash)
unfolding delete_other_sessions
delete_other_sessions-Valid user hash = record { at = λ t d. delete-Valid (is_other user hash) d }

pub delete_session_by_id-Valid :
    (id user : ℕ) (hash : Text) → Maintains Valid (delete_session_by_id id user hash)
unfolding delete_session_by_id
delete_session_by_id-Valid id user hash = record {
  at = λ t d. delete-Valid (is_target id user hash) d;
}
