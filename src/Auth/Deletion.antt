-- ===== src/Auth/Deletion.antt =====
-- What the deletion of an account and the revocation of sessions take away, and what they leave.
use go_spark.Base.{
  ℕ, suc, Text, ◌≡◌, ◌≢◌, refl, subst, true, not, ◌==◌, List, All, All-map, Option, none, some,
  find_if, keep_if, keep_if-test, delete_if, arith,
}
use go_spark.Schema.{
  User, Session, Token, EmailChangeToken, UserTotp, TotpBackupCode, WebauthnCredential, Project, Db,
}
use go_spark.Effect.{Env, World, ok, ◌>>=◌}
use go_spark.Queries.Users.{by_id, get_user_by_id, delete_user_by_id}
use go_spark.AuthStore.Accounts
use go_spark.Auth.Service.{AuthService}
use go_spark.Auth.Accounts.{delete_account}
use go_spark.Auth.Revocation.{is_match}

-- The rows of a table that are not the user's, all of them and nothing else.
abbrev pub Purged : {A : Type 0} → (A → ℕ) → ℕ → List A → List A → Type 0
Purged owner id rows rows' =
    All (λ r. owner r ≢ id) rows' × (rows' ≡ keep_if (λ r. not (owner r == id)) rows)

abbrev pub Deleted : ℕ → Db → Db → Type 0
Deleted id d d' =
    Purged (λ (u : User). u.id) id d.users d'.users
    × Purged (λ (r : Session). r.user_id) id d.sessions d'.sessions
    × Purged (λ (r : Token). r.user_id) id d.email_verification_tokens d'.email_verification_tokens
    × Purged (λ (r : Token). r.user_id) id d.password_reset_tokens d'.password_reset_tokens
    × Purged (λ (r : EmailChangeToken). r.user_id) id d.email_change_tokens d'.email_change_tokens
    × Purged (λ (r : UserTotp). r.user_id) id d.user_totp d'.user_totp
    × Purged (λ (r : TotpBackupCode). r.user_id) id d.totp_backup_codes d'.totp_backup_codes
    × Purged (λ (r : WebauthnCredential). r.user_id) id d.webauthn_credentials
        d'.webauthn_credentials
    × Purged (λ (r : Project). r.user_id) id d.projects d'.projects
    × (d'.email_outbox ≡ d.email_outbox)

purges :
    {A : Type 0} (owner : A → ℕ) (id : ℕ) (rows : List A)
    → Purged owner id rows (delete_if (λ r. owner r == id) rows)
unfolding delete_if
purges owner id rows = (
  All-map (λ r. not (owner r == id) ≡ true) (λ r. owner r ≢ id) (λ r h e. ground (arith, h, e)) _
      (keep_if-test _ rows),
  refl,
)

delete_user-Deleted :
    (id t : ℕ) (d d' : Db) → delete_user_by_id id t d ≡ ok (tt, d') → Deleted id d d'
unfolding delete_user_by_id
delete_user-Deleted id t d d' h = subst (Deleted id d) (cc h) (
  purges (λ (u : User). u.id) id d.users,
  purges (λ (r : Session). r.user_id) id d.sessions,
  purges (λ (r : Token). r.user_id) id d.email_verification_tokens,
  purges (λ (r : Token). r.user_id) id d.password_reset_tokens,
  purges (λ (r : EmailChangeToken). r.user_id) id d.email_change_tokens,
  purges (λ (r : UserTotp). r.user_id) id d.user_totp,
  purges (λ (r : TotpBackupCode). r.user_id) id d.totp_backup_codes,
  purges (λ (r : WebauthnCredential). r.user_id) id d.webauthn_credentials,
  purges (λ (r : Project). r.user_id) id d.projects,
  refl,
)

module _ (env : Env) (s : AuthService) where
  delete_sets :
      (id : ℕ) (password : Text) (w : World) (o : Option User)
      → find_if (by_id id) w.db.users ≡ o
      → (delete_account env s id password w).0 ≡ ok tt
      → (is_match s password o ≡ true)
        × (delete_user_by_id id (env.clock (suc w.step)) w.db
            ≡ ok (tt, (delete_account env s id password w).1.db))
  unfolding delete_account ◌>>=◌ Accounts.get_user_by_id get_user_by_id Accounts.delete_account
      delete_user_by_id
  delete_sets id password w none q h = absurd (ground (arith, q))
  delete_sets id password w (some u) q h = (ground (arith, q), ground (arith, q))

  -- An account is deleted only on its user's password. Then no row of any table is the user's, the
  -- rows of the other users are all there, and the outbox is as it was.
  pub delete_account_purges :
      (id : ℕ) (password : Text) (w : World)
      → (delete_account env s id password w).0 ≡ ok tt
      → (is_match s password (find_if (by_id id) w.db.users) ≡ true)
        × Deleted id w.db (delete_account env s id password w).1.db
  delete_account_purges id password w h =
      let (right, d) = delete_sets id password w _ refl h in
      (right, delete_user-Deleted id (env.clock (suc w.step)) w.db _ d)
