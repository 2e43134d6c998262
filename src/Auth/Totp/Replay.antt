-- ===== src/Auth/Totp/Replay.antt =====
-- Codes that were accepted once: ClaimTOTPCounter and ConsumeTOTPBackupCode of
-- internal/auth/totp_store.go, and the calls of internal/auth/totp.go that use them.
use go_spark.Base.{
  ℕ, ◌*◌, ◌<◌, ◌≤◌, ◌≡◌, ◌≢◌, refl, sym, ap, subst, ◌∙◌, inl, inr, Text, text_eq, Bool, true, false,
  ◌&&◌, Bool-cases, Option, none, some, List, All, update_if, count_if, count_if_zero,
  count_if_zero_iff, update_if_none, trim_space, ltb, update_if-All, All-every, arith,
}
use go_spark.Schema.{UserTotp, TotpBackupCode, Db}
use go_spark.Effect.{Env, World, ok, ◌>>=◌, pure}
use go_spark.Effect.Success.{bind_ok}
use go_spark.Queries.Totp.{of_user, is_newer, accepts, is_unused}
use go_spark.Queries.Totp
use go_spark.Totp.{period, verify_with_counter}
use go_spark.Totp.Windows.{verify_with_counter-window}
use go_spark.AuthStore.Totp.{TotpRecord, claim_totp_counter, consume_totp_backup_code}
use go_spark.Auth.Service.{AuthService}
use go_spark.Auth.BackupCodes.{hash_backup_code, normalised}
use go_spark.Auth.Totp.{claim, verify_totp_code, consume_backup_code}

-- The table once a counter of the user is claimed.
abbrev pub claimed_rows : ℕ → ℕ → List UserTotp → List UserTotp
claimed_rows counter user =
    update_if (accepts counter user) (λ t. record t { last_used_counter = some counter })

-- No second factor of the user takes the counter, or a smaller one.
abbrev Refuses : ℕ → ℕ → List UserTotp → Type 0
Refuses counter user = All (λ t. accepts counter user t ≡ false)

refuses_smaller :
    (counter again : ℕ) (o : Option ℕ)
    → again ≤ counter
    → is_newer counter o ≡ false
    → is_newer again o ≡ false
refuses_smaller counter again none h e = cc
refuses_smaller counter again (some last) h e = ground arith

claimed-Refuses :
    (counter user again : ℕ) (rows : List UserTotp)
    → again ≤ counter
    → Refuses again user (claimed_rows counter user rows)
claimed-Refuses counter user again rows h =
    update_if-All (accepts counter user) (λ _. Unit {0}) (λ t. accepts again user t ≡ false) _
      (λ t _ _. ground (arith, h))
      (λ t _ e. ground (arith, e, refuses_smaller counter again t.last_used_counter h)) rows
      (All-every (λ _. Unit {0}) (λ _. tt) rows)

later_counter :
    (counter next user : ℕ) (rows : List UserTotp)
    → 0 < count_if (accepts next user) (claimed_rows counter user rows)
    → counter < next
later_counter counter next user rows h = elim (Bool-cases (ltb counter next)) [
  | inl e ↦ ground (arith, e)
  | inr e ↦ absurd (
      ground (
        arith,
        e,
        h,
        count_if_zero (accepts next user) (claimed_rows counter user rows)
            (claimed-Refuses counter user next rows (ground (arith, e))),
      ))
]

module _ (env : Env) where
  -- What a claim leaves, if it does not fail.
  claim_leaves :
      (user counter : ℕ) (w : World) (b : Bool)
      → (claim_totp_counter env user counter w).0 ≡ ok b
      → ((claim_totp_counter env user counter w).1.db
          ≡ record w.db { user_totp = claimed_rows counter user w.db.user_totp })
        × (b ≡ ltb 0 (count_if (accepts counter user) w.db.user_totp))
  unfolding claim_totp_counter ◌>>=◌ Totp.claim_totp_counter
  claim_leaves user counter w b h = (ground (arith, h), ground (arith, h))

module _ (env : Env) (s : AuthService) where
  verify_with_counter_reads :
      (secret code : Text) (w : World)
      → (verify_with_counter s.platform env secret code w).1.db ≡ w.db
  unfolding verify_with_counter ◌>>=◌
  verify_with_counter_reads secret code w = ground arith

  claimed_by :
      (r : TotpRecord) (code : Text) (w : World) (o : Option ℕ)
      → (verify_with_counter s.platform env r.secret code w).0 ≡ ok o
      → (claim env s r.user_id o (verify_with_counter s.platform env r.secret code w).1).0 ≡ ok true
      → (counter : ℕ) × (o ≡ some counter)
        × ((claim_totp_counter env r.user_id counter
              (verify_with_counter s.platform env r.secret code w).1).0
            ≡ ok true)
  unfolding pure
  claimed_by r code w none e h = absurd (cc h)
  claimed_by r code w (some counter) e h = (counter, refl, h)

  -- A code that is accepted is the code of a window, whose counter one of the user's second factors
  -- takes, and all that changes is that it is recorded.
  pub verify_totp_code_claims :
      (r : TotpRecord) (code : Text) (w : World)
      → (verify_totp_code env s r code w).0 ≡ ok true
      → (counter : ℕ) × (s.generate_code r.secret (counter * period) ≡ some (trim_space code))
        × ((verify_totp_code env s r code w).1.db
            ≡ record w.db { user_totp = claimed_rows counter r.user_id w.db.user_totp })
        × (0 < count_if (accepts counter r.user_id) w.db.user_totp)
  unfolding verify_totp_code
  verify_totp_code_claims r code w h =
      let (o, e, q) =
        bind_ok (verify_with_counter s.platform env r.secret code) (claim env s r.user_id) w true
          h in
      let w' = (verify_with_counter s.platform env r.secret code w).1 in
      let (counter, same, c) = claimed_by r code w o e (ap (λ x. x.0) (sym q) ∙ h) in
      let (d, positive) = claim_leaves env r.user_id counter w' true c in
      let db = verify_with_counter_reads r.secret code w in
      (
        counter,
        (verify_with_counter-window s.platform env r.secret code w counter (e ∙ ap ok same)).2,
        ap (λ x. x.1.db) (q ∙ ap (λ o. claim env s r.user_id o w') same)
            ∙ d
            ∙ ap (λ (d : Db). record d { user_totp = claimed_rows counter r.user_id d.user_totp })
                db,
        subst (λ (d : Db). 0 < count_if (accepts counter r.user_id) d.user_totp) db
            (ground (arith, positive)),
      )

  claim_rejects :
      (user : ℕ) (o : Option ℕ) (w : World)
      → (claim env s user o w).0 ≡ ok false
      → (claim env s user o w).1.db ≡ w.db
  unfolding pure
  claim_rejects user none w h = refl
  claim_rejects user (some counter) w h =
      let (left, none_taken) = claim_leaves env user counter w false h in
      left
      ∙ ap (λ rows. record w.db { user_totp = rows })
          (update_if_none (accepts counter user)
            (λ t. record t { last_used_counter = some counter }) w.db.user_totp
            (count_if_zero_iff (accepts counter user) w.db.user_totp (ground (arith, none_taken))))

  -- A code that is not accepted changes nothing.
  pub verify_totp_code_rejects :
      (r : TotpRecord) (code : Text) (w : World)
      → (verify_totp_code env s r code w).0 ≡ ok false
      → (verify_totp_code env s r code w).1.db ≡ w.db
  unfolding verify_totp_code
  verify_totp_code_rejects r code w h =
      let (o, e, q) =
        bind_ok (verify_with_counter s.platform env r.secret code) (claim env s r.user_id) w false
          h in
      ap (λ x. x.1.db) q
      ∙ claim_rejects r.user_id o (verify_with_counter s.platform env r.secret code w).1
          (ap (λ x. x.0) (sym q) ∙ h)
      ∙ verify_with_counter_reads r.secret code w

  -- A code that is accepted is the code of a time window, and while the table of second factors is
  -- as the call left it, no code of the same user is accepted but that of a strictly later window:
  -- a captured code cannot be used again, whatever else has changed.
  pub verify_totp_code_fresh :
      (r : TotpRecord) (code : Text) (w : World)
      → (verify_totp_code env s r code w).0 ≡ ok true
      → (counter : ℕ) × (s.generate_code r.secret (counter * period) ≡ some (trim_space code))
        × ((r' : TotpRecord) (again : Text) (later : World)
            → r'.user_id ≡ r.user_id
            → later.db.user_totp ≡ (verify_totp_code env s r code w).1.db.user_totp
            → (verify_totp_code env s r' again later).0 ≡ ok true
            → (next : ℕ) × (counter < next)
              × (s.generate_code r'.secret (next * period) ≡ some (trim_space again)))
  verify_totp_code_fresh r code w h =
      let (counter, shown, left, _) = verify_totp_code_claims r code w h in
      (
        counter,
        shown,
        λ r' again later same table h'.
            let (next, shown', _, taken) = verify_totp_code_claims r' again later h' in
            let rows : later.db.user_totp ≡ claimed_rows counter r.user_id w.db.user_totp =
              table ∙ ap (λ (d : Db). d.user_totp) left in
            (
              next,
              later_counter counter next r.user_id w.db.user_totp (
                  subst
                    (λ u.
                      0 < count_if (accepts next u) (claimed_rows counter r.user_id w.db.user_totp))
                    same (subst (λ rows. 0 < count_if (accepts next r'.user_id) rows) rows taken)),
              shown',
            ),
      )

-- The table once a backup code is spent.
abbrev pub spent_codes : ℕ → ℕ → Text → List TotpBackupCode → List TotpBackupCode
spent_codes at user hash =
    update_if (λ c. is_unused user c && text_eq c.code_hash hash)
      (λ c. record c { used_at = some at })

abbrev pub is_usable : ℕ → Text → TotpBackupCode → Bool
is_usable user hash c = is_unused user c && text_eq c.code_hash hash

spent-unusable :
    (at user : ℕ) (hash : Text) (rows : List TotpBackupCode)
    → All (λ c. is_usable user hash c ≡ false) (spent_codes at user hash rows)
spent-unusable at user hash rows =
    update_if-All (is_usable user hash) (λ _. Unit {0}) (λ c. is_usable user hash c ≡ false) _
      (λ c _ _. ground arith) (λ c _ e. e) rows (All-every (λ _. Unit {0}) (λ _. tt) rows)

module _ (env : Env) (s : AuthService) where
  abbrev pub hash_of : Text → Text
  hash_of code = hash_backup_code s.platform code s.backup_code_key

  -- What a call with a backup code leaves, if it does not fail.
  pub consume_leaves :
      (user : ℕ) (code : Text) (w : World) (b : Bool)
      → (consume_backup_code env s user code w).0 ≡ ok b
      → ((consume_backup_code env s user code w).1.db ≡ record w.db {
        totp_backup_codes =
            spent_codes (env.clock w.step) user (hash_of code) w.db.totp_backup_codes;
      })
        × (b ≡ ltb 0 (count_if (is_usable user (hash_of code)) w.db.totp_backup_codes))
  unfolding consume_backup_code consume_totp_backup_code ◌>>=◌ Totp.consume_totp_backup_code
  consume_leaves user code w b h = (ground (arith, h), ground (arith, h))

  -- A backup code that is accepted is spent: while the table of backup codes is as the call left
  -- it, no text that normalises to the same code is accepted again for the user, at any time.
  pub consume_backup_code_once :
      (user : ℕ) (code : Text) (w : World)
      → (consume_backup_code env s user code w).0 ≡ ok true
      → (again : Text) (later : World)
      → later.db.totp_backup_codes ≡ (consume_backup_code env s user code w).1.db.totp_backup_codes
      → normalised s.platform again ≡ normalised s.platform code
      → (consume_backup_code env s user again later).0 ≢ ok true
  unfolding hash_backup_code
  consume_backup_code_once user code w h again later table same h' =
      let (left, _) = consume_leaves user code w true h in
      let (_, taken) = consume_leaves user again later true h' in
      let rows : later.db.totp_backup_codes
          ≡ spent_codes (env.clock w.step) user (hash_of code) w.db.totp_backup_codes =
        table ∙ ap (λ (d : Db). d.totp_backup_codes) left in
      let hashes : hash_of again ≡ hash_of code =
        ap (λ t. s.hex_encode (s.hmac_sha256 s.backup_code_key t)) same in
      ground (
        arith,
        taken,
        rows,
        hashes,
        count_if_zero (is_usable user (hash_of code)) _
            (spent-unusable (env.clock w.step) user (hash_of code) w.db.totp_backup_codes),
      )
