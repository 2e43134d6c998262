-- ===== src/Effect/Atomicity.antt =====
-- Rules for what a call does to the database, one for each way to build a call.
use go_spark.Base.{ℕ, ◌≡◌, refl, ◌∙◌, inl, inr, Bool, true, false, if◌then◌else◌, Bool-cases}
use go_spark.Schema.{Db}
use go_spark.Effect.{
  Err, Result, ok, err, Env, World, Action, Query, pure, raise, lift, guard, is_no_rows, find_or,
  recover, exec, now, draw, with_tx, ◌>>=◌, continue, on_missing, on_error, finish, tick,
}

-- The statement does not change the database.
pub record Reads {A : Type 0} (q : Query A) : Type 0 where
  pub at : (t : ℕ) (d : Db) (a : A) (d' : Db) → q t d ≡ ok (a, d') → d' ≡ d

-- The call does not change the database, whether it fails or not.
pub record ReadOnly {A : Type 0} (m : Action A) : Type 0 where
  pub at : (w : World) → (m w).1.db ≡ w.db

-- A call that fails leaves the database as it was.
pub record Atomic {A : Type 0} (m : Action A) : Type 0 where
  pub at : (w : World) (e : Err) → (m w).0 ≡ err e → (m w).1.db ≡ w.db

module _ {A : Type 0} where
  pub ReadOnly-pure : (a : A) → ReadOnly (pure a)
  unfolding pure
  ReadOnly-pure a = record { at = λ w. refl }

  pub ReadOnly-raise : (e : Err) → ReadOnly (raise {A = A} e)
  unfolding raise
  ReadOnly-raise e = record { at = λ w. refl }

  pub ReadOnly-lift : (r : Result A) → ReadOnly (lift r)
  unfolding lift
  ReadOnly-lift r = record { at = λ w. refl }

pub ReadOnly-guard : (b : Bool) (e : Err) → ReadOnly (guard b e)
unfolding guard
ReadOnly-guard b e = record { at = λ w. refl }

module _ (env : Env) where
  pub ReadOnly-now : ReadOnly (now env)
  unfolding now
  ReadOnly-now = record { at = λ w. refl }

  pub ReadOnly-draw : ReadOnly (draw env)
  unfolding draw
  ReadOnly-draw = record { at = λ w. refl }

  exec-Reads :
      {A : Type 0} (q : Query A) (w : World) (r : Result (A × Db))
      → Reads q
      → q (env.clock w.step) w.db ≡ r
      → (exec env q w).1.db ≡ w.db
  unfolding exec
  exec-Reads q w (ok (a, d')) k e = elim (Bool-cases (env.fails w.step)) [
    | inl f ↦ rw f
    | inr f ↦ rw (f, e) (k.at (env.clock w.step) w.db a d' e)
  ]
  exec-Reads q w (err x) k e = elim (Bool-cases (env.fails w.step)) [
    | inl f ↦ rw f
    | inr f ↦ rw (f, e)
  ]

  pub ReadOnly-exec : {A : Type 0} (q : Query A) → Reads q → ReadOnly (exec env q)
  ReadOnly-exec q k = record { at = λ w. exec-Reads q w (q (env.clock w.step) w.db) k refl }

module _ {A B : Type 0} where
  later_read :
      (r : Result A) (w : World) (d : Db) (f : A → Action B)
      → w.db ≡ d
      → ((a : A) → ReadOnly (f a))
      → (continue r f w).1.db ≡ d
  later_read (ok a) w d f same k = (k a).at w ∙ same
  later_read (err x) w d f same k = same

  pub ReadOnly-bind :
      (m : Action A) (f : A → Action B)
      → ReadOnly m
      → ((a : A) → ReadOnly (f a))
      → ReadOnly (m >>= f)
  unfolding ◌>>=◌
  ReadOnly-bind m f k l = record { at = λ w. later_read (m w).0 (m w).1 w.db f (k.at w) l }

-- How a call that failed after a step ends: by the step's failure or by a later one.
module _ {A B : Type 0} (d : Db) (f : A → Action B) where
  later-Atomic :
      (r : Result A) (w : World) (e : Err)
      → w.db ≡ d
      → ((a : A) → Atomic (f a))
      → (continue r f w).0 ≡ err e
      → (continue r f w).1.db ≡ d
  later-Atomic (ok a) w e same k h = (k a).at w e h ∙ same
  later-Atomic (err x) w e same k h = same

module _ {A : Type 0} where
  pub Atomic-of_ReadOnly : (m : Action A) → ReadOnly m → Atomic m
  Atomic-of_ReadOnly m k = record { at = λ w e h. k.at w }

  pub Atomic-raise : (e : Err) → Atomic (raise {A = A} e)
  Atomic-raise e = Atomic-of_ReadOnly (raise e) (ReadOnly-raise e)

  pub Atomic-pure : (a : A) → Atomic (pure a)
  Atomic-pure a = Atomic-of_ReadOnly (pure a) (ReadOnly-pure a)

  pub Atomic-if : (b : Bool) (m n : Action A) → Atomic m → Atomic n → Atomic (if b then m else n)
  Atomic-if true m n km kn = km
  Atomic-if false m n km kn = kn

module _ {A B : Type 0} where
  -- Nothing was written before the rest began.
  pub Atomic-bind :
      (m : Action A) (f : A → Action B) → ReadOnly m → ((a : A) → Atomic (f a)) → Atomic (m >>= f)
  unfolding ◌>>=◌
  Atomic-bind m f k l = record { at = λ w e h. later-Atomic w.db f (m w).0 (m w).1 e (k.at w) l h }

  then_atomic :
      (g : A → B) (r : Result A) (w : World) (d : Db) (e : Err)
      → ((x : Err) → r ≡ err x → w.db ≡ d)
      → (continue r (λ a. pure (g a)) w).0 ≡ err e
      → (continue r (λ a. pure (g a)) w).1.db ≡ d
  unfolding pure
  then_atomic g (ok a) w d e k h = absurd (cc h)
  then_atomic g (err x) w d e k h = k x refl

  -- Nothing can fail after the write.
  pub Atomic-then_pure : (m : Action A) (g : A → B) → Atomic m → Atomic (m >>= λ a. pure (g a))
  unfolding ◌>>=◌
  Atomic-then_pure m g k = record {
    at = λ w e h. then_atomic g (m w).0 (m w).1 w.db e (λ x. k.at w x) h;
  }

  missing-Atomic :
      (r : Result A) (w : World) (d : Db) (e : Err) (missing : Action B) (found : A → Action B)
      → w.db ≡ d
      → Atomic missing
      → ((a : A) → Atomic (found a))
      → (on_missing r missing found w).0 ≡ err e
      → (on_missing r missing found w).1.db ≡ d
  missing-Atomic (ok a) w d e missing found same km kf h = (kf a).at w e h ∙ same
  missing-Atomic (err x) w d e missing found same km kf h = elim (Bool-cases (is_no_rows x)) [
    | inl t ↦ rw t (km.at w e (rw t at h) ∙ same)
    | inr t ↦ rw t same
  ]

  pub Atomic-find_or :
      (m : Action A) (missing : Action B) (found : A → Action B)
      → ReadOnly m
      → Atomic missing
      → ((a : A) → Atomic (found a))
      → Atomic (find_or m missing found)
  unfolding find_or
  Atomic-find_or m missing found k km kf = record {
    at = λ w e h. missing-Atomic (m w).0 (m w).1 w.db e missing found (k.at w) km kf h;
  }

module _ {A : Type 0} where
  handled-Atomic :
      (test : Err → Bool) (handler : Action A) (r : Result A) (w : World) (d : Db) (e : Err)
      → ((x : Err) → r ≡ err x → w.db ≡ d)
      → Atomic handler
      → (on_error test handler r w).0 ≡ err e
      → (on_error test handler r w).1.db ≡ d
  handled-Atomic test handler (ok a) w d e k kh h = absurd (cc h)
  handled-Atomic test handler (err x) w d e k kh h = elim (Bool-cases (test x)) [
    | inl t ↦ rw t (kh.at w e (rw t at h) ∙ k x refl)
    | inr t ↦ rw t (k x refl)
  ]

  pub Atomic-recover :
      (test : Err → Bool) (handler m : Action A)
      → Atomic handler
      → Atomic m
      → Atomic (recover test handler m)
  unfolding recover
  Atomic-recover test handler m kh k = record {
    at = λ w e h. handled-Atomic test handler (m w).0 (m w).1 w.db e (λ x. k.at w x) kh h;
  }

module _ (env : Env) {A : Type 0} where
  exec_atomic :
      (q : Query A) (w : World) (e : Err) (r : Result (A × Db))
      → q (env.clock w.step) w.db ≡ r
      → (exec env q w).0 ≡ err e
      → (exec env q w).1.db ≡ w.db
  unfolding exec
  exec_atomic q w e (ok (a, d')) p h = elim (Bool-cases (env.fails w.step)) [
    | inl f ↦ rw f
    | inr f ↦ absurd (cc (rw (f, p) at h))
  ]
  exec_atomic q w e (err x) p h = elim (Bool-cases (env.fails w.step)) [
    | inl f ↦ rw f
    | inr f ↦ rw (f, p)
  ]

  -- One statement changes all that it changes, or nothing.
  pub Atomic-exec : (q : Query A) → Atomic (exec env q)
  Atomic-exec q = record { at = λ w e. exec_atomic q w e (q (env.clock w.step) w.db) refl }

  finish_atomic :
      (d : Db) (r : Result A) (w : World) (e : Err)
      → (finish env d r w).0 ≡ err e
      → (finish env d r w).1.db ≡ d
  finish_atomic d (ok a) w e h = elim (Bool-cases (env.fails w.step)) [
    | inl f ↦ rw f
    | inr f ↦ absurd (cc (rw f at h))
  ]
  finish_atomic d (err x) w e h = refl

  -- A transaction is atomic, whatever stands in it.
  pub Atomic-with_tx : (body : Action A) → Atomic (with_tx env body)
  unfolding with_tx
  Atomic-with_tx body = record {
    at = λ w e h. elim (Bool-cases (env.fails w.step)) [
      | inl f ↦ rw f
      | inr f ↦ rw f (finish_atomic w.db (body (tick w)).0 (body (tick w)).1 e (rw f at h))
    ];
  }

pub ruleset read_rules = (
  ReadOnly-pure, ReadOnly-raise, ReadOnly-lift, ReadOnly-guard, ReadOnly-now, ReadOnly-draw,
  ReadOnly-exec, ReadOnly-bind,
)

pub ruleset atomic_rules = (
  Atomic-pure, Atomic-raise, Atomic-if, Atomic-bind, Atomic-then_pure, Atomic-find_or,
  Atomic-recover, Atomic-exec, Atomic-with_tx, read_rules,
)
