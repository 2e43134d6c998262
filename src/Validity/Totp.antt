-- ===== src/Validity/Totp.antt =====
-- The statements on the second factor keep a database well formed.
use go_spark.Base.{
  ℕ, Text, text_eq, ◌≡◌, ◌≢◌, refl, inl, inr, Bool, false, Bool-cases, is_some, find_if,
  find_if-none, update_if-Distinct, Distinct-append, delete_if, keep_if-Distinct, not, not_some,
  All, All-map, arith, List, update_if,
}
use go_spark.Schema.{UserTotp, Db}
use go_spark.Effect.Invariants.{Maintains}
use go_spark.Queries.Users.{user_exists}
use go_spark.Queries.Totp.{
  of_user, accepts, code_of_user, claim_totp_counter, upsert_pending_totp, enable_totp,
  delete_totp_by_user_id, create_totp_backup_code, delete_totp_backup_codes_by_user_id,
  consume_totp_backup_code,
}
use go_spark.Validity.Tables.{with_totps, with_codes}
use go_spark.Validity.Users.{delete-KeysValid}
use go_spark.Validity.Sessions.{append-KeysValid, append-Owned, delete-Owned}
use go_spark.Validity.Tokens.{update-KeysValid, update-Owned}
use go_spark.Validity.{Valid}

-- Any change of second factors that leaves their users alone.
update-Valid :
    (p : UserTotp → Bool) (f : UserTotp → UserTotp) (d : Db)
    → ((r : UserTotp) → (f r).user_id ≡ r.user_id)
    → Valid d
    → Valid (record d { user_totp = update_if p f d.user_totp })
update-Valid p f d same v =
    with_totps d v _ (update_if-Distinct p (λ r. r.user_id) f same d.user_totp v.totps)
      (update-Owned p f d.user_totp (λ r. r.user_id) d.users same v.owners.totps)

pub claim_totp_counter-Valid :
    (counter user : ℕ) → Maintains Valid (claim_totp_counter counter user)
unfolding claim_totp_counter
claim_totp_counter-Valid counter user = record {
  at = λ t d. update-Valid (accepts counter user) _ d (λ r. refl);
}

pub enable_totp-Valid : (at user : ℕ) → Maintains Valid (enable_totp at user)
unfolding enable_totp
enable_totp-Valid at user = record { at = λ t d. update-Valid _ _ d (λ r. refl) }

pub delete_totp_by_user_id-Valid : (user : ℕ) → Maintains Valid (delete_totp_by_user_id user)
unfolding delete_totp_by_user_id delete_if
delete_totp_by_user_id-Valid user = record {
  at = λ t d v.
      with_totps d v _
        (keep_if-Distinct (λ r. not (of_user user r)) (λ r. r.user_id) d.user_totp v.totps)
        (delete-Owned (λ r. r.user_id) (of_user user) d.users d.user_totp v.owners.totps);
}

-- A user without a second factor is a new one to the table.
fresh_user :
    (user : ℕ) (rows : List UserTotp)
    → is_some (find_if (of_user user) rows) ≡ false
    → All (λ r. r.user_id ≢ user) rows
fresh_user user rows h =
    All-map (λ r. of_user user r ≡ false) (λ r. r.user_id ≢ user)
      (λ r miss same. ground (arith, miss, same)) rows
      (find_if-none (of_user user) rows (not_some _ h))

pub upsert_pending_totp-Valid :
    (user : ℕ) (secret : Text) → Maintains Valid (upsert_pending_totp user secret)
unfolding upsert_pending_totp
upsert_pending_totp-Valid user secret = record {
  at = λ t d v. elim (Bool-cases (is_some (find_if (of_user user) d.user_totp))) [
    | inl taken ↦ rw taken (update-Valid (of_user user) _ d (λ r. refl) v)
    | inr fresh ↦ rw fresh (elim (Bool-cases (user_exists user d.users)) [
      | inr lost ↦ rw lost tt
      | inl here ↦ rw here (
          with_totps d v _
            (Distinct-append (λ r. r.user_id) d.user_totp _ v.totps
              (fresh_user user d.user_totp fresh))
            (append-Owned (λ r. r.user_id) d.users d.user_totp _ v.owners.totps here))
    ])
  ];
}

pub create_totp_backup_code-Valid :
    (user : ℕ) (hash : Text) → Maintains Valid (create_totp_backup_code user hash)
unfolding create_totp_backup_code
create_totp_backup_code-Valid user hash = record {
  at = λ t d v.
      elim (Bool-cases (is_some (find_if (λ c. text_eq c.code_hash hash) d.totp_backup_codes))) [
        | inl taken ↦ rw taken tt
        | inr fresh ↦ rw fresh (elim (Bool-cases (user_exists user d.users)) [
          | inr lost ↦ rw lost tt
          | inl here ↦ rw here (
              with_codes d v _
                (append-KeysValid (λ r. r.id) (λ r. r.code_hash) d.totp_backup_codes _ refl fresh
                  v.codes)
                (append-Owned (λ r. r.user_id) d.users d.totp_backup_codes _ v.owners.codes here))
        ])
      ];
}

pub delete_totp_backup_codes_by_user_id-Valid :
    (user : ℕ) → Maintains Valid (delete_totp_backup_codes_by_user_id user)
unfolding delete_totp_backup_codes_by_user_id
delete_totp_backup_codes_by_user_id-Valid user = record {
  at = λ t d v.
      with_codes d v _ (delete-KeysValid _ _ (code_of_user user) d.totp_backup_codes v.codes) (
        delete-Owned (λ r. r.user_id) (code_of_user user) d.users d.totp_backup_codes
          v.owners.codes);
}

pub consume_totp_backup_code-Valid :
    (at user : ℕ) (hash : Text) → Maintains Valid (consume_totp_backup_code at user hash)
unfolding consume_totp_backup_code
consume_totp_backup_code-Valid at user hash = record {
  at = λ t d v.
      with_codes d v _
        (update-KeysValid _ _ d.totp_backup_codes (λ r. r.id) (λ r. r.code_hash) (λ x. refl)
          (λ x. refl) v.codes)
        (update-Owned _ _ d.totp_backup_codes (λ r. r.user_id) d.users (λ x. refl) v.owners.codes);
}
