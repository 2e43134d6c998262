-- ===== src/Validity/Users.antt =====
-- The statements on users keep a database well formed.
use go_spark.Base.{
  ℕ, Text, List, [], ◌∷◌, ◌++◌, ◌≡◌, refl, ap, ◌∙◌, ◌≢◌, ◌==◌, inl, inr, Bool, true, false, not,
  ◌&&◌, arith, All, All-map, Distinct, Bool-cases, Option-cases, is_some, find_if, update_if,
  delete_if, max_key_fresh, fresh_text, Distinct-append, keep_if-All, keep_if-test,
  keep_if-Distinct, update_if-Distinct, find_if-update_if, find_if-keep_if, find_if-append_some,
  update_if-All, All-and, find_if-none, not_some, text_eq_iff, if◌then◌else◌,
}
use go_spark.Schema.{User, UserTotp, Db}
use go_spark.Effect.Invariants.{Maintains}
use go_spark.Queries.Users.{
  by_id, by_email, by_handle, user_exists, create_user, new_user, update_user_password_hash,
  mark_user_email_verified, verified, update_user_email, with_email, email_taken, delete_user_by_id,
}
use go_spark.Validity.Tables.{with_users}
use go_spark.Validity.{Owned, UsersValid, Owners-mono, KeysValid, Valid}

exists-append :
    (i : ℕ) (users : List User) (u : User)
    → user_exists i users ≡ true
    → user_exists i (users ++ u ∷ []) ≡ true
unfolding user_exists
exists-append i users u = find_if-append_some (by_id i) users (u ∷ [])

exists-update :
    (p : User → Bool) (f : User → User)
    → ((u : User) → (f u).id ≡ u.id)
    → (users : List User) (i : ℕ) → user_exists i users ≡ true
    → user_exists i (update_if p f users) ≡ true
unfolding user_exists
exists-update p f same users i h =
    find_if-update_if (by_id i) p f (λ u. ap (λ j. j == i) (same u)) users ∙ h

exists-delete :
    (id : ℕ) (users : List User) (i : ℕ)
    → i ≢ id
    → user_exists i users ≡ true
    → user_exists i (delete_if (by_id id) users) ≡ true
unfolding user_exists delete_if
exists-delete id users i ne h =
    ap is_some (find_if-keep_if (by_id i) (λ u. not (by_id id u)) (λ u e. ground arith) users) ∙ h

update-UsersValid :
    (p : User → Bool) (f : User → User)
    → ((u : User) → (f u).id ≡ u.id)
    → ((u : User) → (f u).email ≡ u.email)
    → ((u : User) → (f u).webauthn_user_handle ≡ u.webauthn_user_handle)
    → (users : List User) → UsersValid users
    → UsersValid (update_if p f users)
update-UsersValid p f i e h users v = record {
  ids = update_if-Distinct p (λ u. u.id) f i users v.ids;
  emails = update_if-Distinct p (λ u. u.email) f e users v.emails;
  handles = update_if-Distinct p (λ u. u.webauthn_user_handle) f h users v.handles;
}

-- An update of users that leaves their keys alone.
update-Valid :
    (p : User → Bool) (f : User → User) (d : Db)
    → ((u : User) → (f u).id ≡ u.id)
    → ((u : User) → (f u).email ≡ u.email)
    → ((u : User) → (f u).webauthn_user_handle ≡ u.webauthn_user_handle)
    → Valid d
    → Valid (record d { users = update_if p f d.users })
update-Valid p f d i e h v =
    with_users d v (update_if p f d.users) (update-UsersValid p f i e h d.users v.users)
      (Owners-mono d.users (update_if p f d.users) d (exists-update p f i d.users) v.owners)

pub update_user_password_hash-Valid :
    (hash : Text) (id : ℕ) → Maintains Valid (update_user_password_hash hash id)
unfolding update_user_password_hash
update_user_password_hash-Valid hash id = record {
  at = λ t d v. update-Valid (by_id id) _ d (λ u. refl) (λ u. refl) (λ u. refl) v;
}

pub mark_user_email_verified-Valid : (at id : ℕ) → Maintains Valid (mark_user_email_verified at id)
unfolding mark_user_email_verified
mark_user_email_verified-Valid at id = record {
  at = λ t d v. elim (Option-cases (find_if (by_id id) d.users)) [
    | inl e ↦ rw (e, mark_user_email_verified) tt
    | inr (u, e) ↦
        rw (e, mark_user_email_verified)
          (update-Valid (by_id id) (verified at) d (λ u. refl) (λ u. refl) (λ u. refl) v)
  ];
}

-- The new address differs from the addresses of all other users.
emails-with_email :
    (email : Text) (at id : ℕ) (users : List User)
    → Distinct (λ (u : User). u.id) users
    → Distinct (λ (u : User). u.email) users
    → All (λ u. (by_email email u && not (by_id id u)) ≡ false) users
    → Distinct (λ (u : User). u.email) (update_if (by_id id) (with_email email at) users)
unfolding update_if
emails-with_email email at id [] i e free = tt
emails-with_email email at id (y ∷ ys) i e free = (
  update_if-All (by_id id) Apart (λ z. head.email ≢ z.email) (with_email email at) hit miss ys
      (All-and _ _ ys (All-and _ _ ys i.0 e.0) free.1),
  emails-with_email email at id ys i.1 e.1 free.1,
)
  where
    head : User
    head = if by_id id y then with_email email at y else y

    Apart : User → Type 0
    Apart z =
        ((y.id ≢ z.id) × (y.email ≢ z.email)) × ((by_email email z && not (by_id id z)) ≡ false)

    hit : (z : User) → Apart z → by_id id z ≡ true → head.email ≢ email
    hit z a h = ground (arith, text_eq_iff y.email email, free.0, a.0.0)

    miss : (z : User) → Apart z → by_id id z ≡ false → head.email ≢ z.email
    miss z a h = ground (arith, text_eq_iff z.email email, free.0, a.0.1, a.1)

pub update_user_email-Valid :
    (email : Text) (at id : ℕ) → Maintains Valid (update_user_email email at id)
unfolding update_user_email email_taken
update_user_email-Valid email at id = record {
  at = λ t d v. elim (Option-cases (find_if (by_id id) d.users)) [
    | inl e ↦ rw (e, update_user_email) tt
    | inr (u, e) ↦
        rw (e, update_user_email)
          (elim (Bool-cases (email_taken email id d.users)) [
            | inl taken ↦ rw taken tt
            | inr free ↦ rw free (
                with_users d v _
                  (record {
                    ids =
                        update_if-Distinct (by_id id) (λ u. u.id) (with_email email at) (λ u. refl)
                          d.users v.users.ids;
                    emails = emails-with_email email at id d.users v.users.ids v.users.emails (
                        find_if-none (λ u. by_email email u && not (by_id id u)) d.users
                          (not_some _ free));
                    handles =
                        update_if-Distinct (by_id id) (λ u. u.webauthn_user_handle)
                          (with_email email at) (λ u. refl) d.users v.users.handles;
                  })
                  (Owners-mono d.users _ d
                    (exists-update (by_id id) (with_email email at) (λ u. refl) d.users) v.owners))
          ])
  ];
}

create_user-UsersValid :
    (email hash handle : Text) (now : ℕ) (users : List User)
    → UsersValid users
    → is_some (find_if (by_email email) users) ≡ false
    → is_some (find_if (by_handle handle) users) ≡ false
    → UsersValid (users ++ new_user email hash handle now users ∷ [])
create_user-UsersValid email hash handle now users v e h = record {
  ids = Distinct-append (λ u. u.id) users _ v.ids (max_key_fresh (λ u. u.id) users);
  emails =
      Distinct-append (λ u. u.email) users _ v.emails (fresh_text (λ u. u.email) email users e);
  handles =
      Distinct-append (λ u. u.webauthn_user_handle) users _ v.handles
        (fresh_text (λ u. u.webauthn_user_handle) handle users h);
}

pub create_user-Valid : (email hash handle : Text) → Maintains Valid (create_user email hash handle)
unfolding create_user
create_user-Valid email hash handle = record {
  at = λ t d v. elim (Bool-cases (is_some (find_if (by_email email) d.users))) [
    | inl e ↦ rw e tt
    | inr e ↦ rw e (elim (Bool-cases (is_some (find_if (by_handle handle) d.users))) [
      | inl h ↦ rw h tt
      | inr h ↦ rw h (
          with_users d v _ (create_user-UsersValid email hash handle t d.users v.users e h)
            (Owners-mono d.users _ d (λ i. exists-append i d.users _) v.owners))
    ])
  ];
}

-- Of the rows of a table, DELETE with CASCADE leaves those of users that stay.
cascade-Owned :
    {A : Type 0} (owner : A → ℕ) (id : ℕ) (users : List User) (rows : List A)
    → Owned owner users rows
    → Owned owner (delete_if (by_id id) users) (delete_if (λ r. owner r == id) rows)
unfolding delete_if
cascade-Owned owner id users rows o =
    All-map _ _ (λ r h. exists-delete id users (owner r) (λ e. ground (arith, h.0)) h.1) _
      (All-and _ _ _ (keep_if-test (λ r. not (owner r == id)) rows)
        (keep_if-All (λ r. not (owner r == id)) (λ r. user_exists (owner r) users ≡ true) rows o))

module _ {A : Type 0} (id : A → ℕ) (hash : A → Text) (p : A → Bool) (rows : List A) where
  pub delete-KeysValid : KeysValid id hash rows → KeysValid id hash (delete_if p rows)
  unfolding delete_if
  delete-KeysValid k = record {
    ids = keep_if-Distinct (λ x. not (p x)) id rows k.ids;
    hashes = keep_if-Distinct (λ x. not (p x)) hash rows k.hashes;
  }

pub delete_user_by_id-Valid : (id : ℕ) → Maintains Valid (delete_user_by_id id)
unfolding delete_user_by_id
delete_user_by_id-Valid id = record {
  at = λ t d v. record {
    users = record {
      ids = unfold delete_if in keep_if-Distinct _ (λ u. u.id) d.users v.users.ids;
      emails = unfold delete_if in keep_if-Distinct _ (λ u. u.email) d.users v.users.emails;
      handles =
          unfold delete_if in
          keep_if-Distinct _ (λ u. u.webauthn_user_handle) d.users v.users.handles;
    };
    sessions = delete-KeysValid _ _ _ d.sessions v.sessions;
    verifications = delete-KeysValid _ _ _ d.email_verification_tokens v.verifications;
    resets = delete-KeysValid _ _ _ d.password_reset_tokens v.resets;
    changes = delete-KeysValid _ _ _ d.email_change_tokens v.changes;
    totps =
        unfold delete_if in keep_if-Distinct _ (λ (r : UserTotp). r.user_id) d.user_totp v.totps;
    codes = delete-KeysValid _ _ _ d.totp_backup_codes v.codes;
    outbox = v.outbox;
    owners = record {
      sessions = cascade-Owned (λ r. r.user_id) id d.users d.sessions v.owners.sessions;
      verifications =
          cascade-Owned (λ r. r.user_id) id d.users d.email_verification_tokens
            v.owners.verifications;
      resets = cascade-Owned (λ r. r.user_id) id d.users d.password_reset_tokens v.owners.resets;
      changes = cascade-Owned (λ r. r.user_id) id d.users d.email_change_tokens v.owners.changes;
      totps = cascade-Owned (λ r. r.user_id) id d.users d.user_totp v.owners.totps;
      codes = cascade-Owned (λ r. r.user_id) id d.users d.totp_backup_codes v.owners.codes;
      credentials =
          cascade-Owned (λ r. r.user_id) id d.users d.webauthn_credentials v.owners.credentials;
      projects = cascade-Owned (λ r. r.user_id) id d.users d.projects v.owners.projects;
    };
  };
}
