-- ===== src/Effect.antt =====
-- What a call of the program does beside computing: it asks the database, reads the clock and
-- draws random bytes, and each of these may fail. Transactions are internal/auth/tx.go.
pub mod Atomicity
pub mod Invariants
pub mod Success
use go_spark.Base.{ℕ, suc, Text, Bool, true, false, if◌then◌else◌}
use go_spark.Schema.{Db}

-- The sentinel errors of the program; wrapping by `fmt.Errorf` with `%w` keeps the sentinel that
-- `errors.Is` looks for, so a wrapped error is the error.
pub data Err : Type 0 where
  email_already_registered current_password_incorrect invalid_credentials invalid_email : Err
  invalid_password password_too_long email_unchanged password_unchanged : Err
  invalid_password_reset_token invalid_session invalid_session_target : Err
  cannot_revoke_current_session invalid_email_change_token invalid_verification_token : Err
  totp_required invalid_totp_code totp_already_enabled totp_not_enabled : Err
  totp_setup_not_started passkeys_disabled passkey_ceremony passkey_not_found : Err
  project_name_required project_name_too_long project_not_found : Err
  -- `sql.ErrNoRows`
  no_rows : Err
  -- SQLite refused a row: a UNIQUE column, or a foreign key
  unique_violation foreign_key_violation : Err
  -- any other failure of the database, and of the random source
  db_failure random_failure : Err
  -- a message, a hash or a ciphertext that could not be built or read
  message_failure hash_failure cipher_failure : Err

pub data Result {ℓ} (A : Type ℓ) : Type ℓ where
  ok : A → Result A
  err : Err → Result A

-- The surroundings of a run. Effects are numbered in the order in which they happen.
pub record Env : Type 0 where
  -- what `time.Now` or CURRENT_TIMESTAMP reads at an effect
  pub clock : ℕ → ℕ
  -- whether the effect fails
  pub fails : ℕ → Bool
  -- the random text drawn at an effect, as the program encodes it
  pub random : ℕ → Text

-- The database, and the number of the next effect.
pub record World : Type 0 where
  pub db : Db
  pub step : ℕ

abbrev pub Action : Type 0 → Type 0
Action A = World → Result A × World

-- One SQL statement, at the time that CURRENT_TIMESTAMP reads. A statement that fails changes
-- nothing.
abbrev pub Query : Type 0 → Type 0
Query A = ℕ → Db → Result (A × Db)

abbrev pub tick : World → World
tick w = record w { step = suc w.step }

module _ {A : Type 0} where
  unfoldable pub pure : A → Action A
  pure a w = (ok a, w)

  unfoldable pub raise : Err → Action A
  raise e w = (err e, w)

  -- A result that needed no effect.
  unfoldable pub lift : Result A → Action A
  lift r w = (r, w)

unfoldable pub guard : Bool → Err → Action (Unit {0})
guard b e w = (if b then ok tt else err e, w)

-- `errors.Is(err, sql.ErrNoRows)`
unfoldable pub is_no_rows : Err → Bool
is_no_rows no_rows = true
is_no_rows _ = false

abbrev on_missing : {A B : Type 0} → Result A → Action B → (A → Action B) → Action B
on_missing (ok a) missing found w = found a w
on_missing (err e) missing found w = if is_no_rows e then missing w else (err e, w)

-- `if errors.Is(err, sql.ErrNoRows) { missing }; if err != nil { return err }; found`
unfoldable pub find_or : {A B : Type 0} → Action A → Action B → (A → Action B) → Action B
find_or m missing found w = let (r, w') = m w in on_missing r missing found w'

abbrev on_error : {A : Type 0} → (Err → Bool) → Action A → Result A → Action A
on_error test handler (ok a) w = (ok a, w)
on_error test handler (err e) w = if test e then handler w else (err e, w)

-- `if errors.Is(err, …) { handler }; if err != nil { return err }`, with the test as a function.
unfoldable pub recover : {A : Type 0} → (Err → Bool) → Action A → Action A → Action A
recover test handler m w = let (r, w') = m w in on_error test handler r w'

abbrev pub on_result : {A B : Type 0} → Result A → (A → Action B) → (Err → Action B) → Action B
on_result (ok a) found failed w = found a w
on_result (err e) found failed w = failed e w

-- `if err != nil { failed }; found`, for a caller that answers every error.
unfoldable pub handle : {A B : Type 0} → Action A → (A → Action B) → (Err → Action B) → Action B
handle m found failed w = let (r, w') = m w in on_result r found failed w'

module _ (env : Env) where
  abbrev answer : {A : Type 0} → Result (A × Db) → World → Result A × World
  answer (ok (a, d)) w = (ok a, record w { db = d })
  answer (err e) w = (err e, w)

  -- A statement sent to the database.
  unfoldable pub exec : {A : Type 0} → Query A → Action A
  exec q w =
      if env.fails w.step
      then (err db_failure, tick w)
      else answer (q (env.clock w.step) w.db) (tick w)

  -- `time.Now().UTC()`
  unfoldable pub now : Action ℕ
  now w = (ok (env.clock w.step), tick w)

  -- `rand.Read`, and the encoding of what it read
  unfoldable pub draw : Action Text
  draw w = (if env.fails w.step then err random_failure else ok (env.random w.step), tick w)

  -- COMMIT at the end of a transaction that went well; a transaction that did not, or that
  -- cannot be committed, is rolled back to the database `d` that it began with.
  abbrev finish : {A : Type 0} → Db → Result A → World → Result A × World
  finish d (ok a) w =
      if env.fails w.step then (err db_failure, record (tick w) { db = d }) else (ok a, tick w)
  finish d (err e) w = (err e, record w { db = d })

  unfoldable pub with_tx : {A : Type 0} → Action A → Action A
  with_tx body w =
      if env.fails w.step
      then (err db_failure, tick w)
      else let (r, w') = body (tick w) in finish w.db r w'

abbrev continue : {A B : Type 0} → Result A → (A → Action B) → Action B
continue (ok a) f w = f a w
continue (err e) f w = (err e, w)

-- A step that fails ends the call. To unfold this is to unfold all the building blocks above.
infixl 5 ◌>>=◌ ◌>>◌
unfoldable pub ◌>>=◌ : {A B : Type 0} → Action A → (A → Action B) → Action B
unfolding pure raise lift guard find_or recover exec now draw with_tx
◌>>=◌ m f w = let (r, w') = m w in continue r f w'

abbrev pub ◌>>◌ : {A B : Type 0} → Action A → Action B → Action B
m >> k = m >>= λ _. k
