-- ===== src/Effect/Success.antt =====
-- What a call that succeeds went through, for each way to build a call.
use go_spark.Base.{
  ◌≡◌, refl, ap, ◌∙◌, inl, inr, Bool, true, false, Bool-cases, arith, if◌then◌else◌,
}
use go_spark.Schema.{Db}
use go_spark.Effect.{
  Err, Result, ok, err, Env, World, Action, Query, raise, guard, find_or, recover, exec, with_tx,
  ◌>>=◌, continue, finish, tick, on_error, on_missing, answer,
}

module _ {A B : Type 0} where
  continue_ok :
      (r : Result A) (w : World) (f : A → Action B) (b : B)
      → (continue r f w).0 ≡ ok b
      → (a : A) × (r ≡ ok a) × (continue r f w ≡ f a w)
  continue_ok (ok a) w f b h = (a, refl, refl)
  continue_ok (err e) w f b h = absurd (cc h)

  -- A sequence that succeeds: its first step does, and the rest is the rest.
  pub bind_ok :
      (m : Action A) (f : A → Action B) (w : World) (b : B)
      → ((m >>= f) w).0 ≡ ok b
      → (a : A) × ((m w).0 ≡ ok a) × ((m >>= f) w ≡ f a (m w).1)
  unfolding ◌>>=◌
  bind_ok m f w b h = continue_ok (m w).0 (m w).1 f b h

module _ (env : Env) {A : Type 0} where
  answer_ok :
      (r : Result (A × Db)) (w : World) (a : A)
      → (answer env r w).0 ≡ ok a
      → (d : Db) × (r ≡ ok (a, d)) × ((answer env r w).1 ≡ record w { db = d })
  answer_ok (ok (b, d)) w a h = (d, cc h, refl)
  answer_ok (err e) w a h = absurd (cc h)

  -- A statement that succeeds.
  pub exec_ok :
      (q : Query A) (w : World) (a : A)
      → (exec env q w).0 ≡ ok a
      → (d : Db) × (q (env.clock w.step) w.db ≡ ok (a, d))
        × ((exec env q w).1 ≡ record (tick w) { db = d })
  unfolding exec
  exec_ok q w a h = elim (Bool-cases (env.fails w.step)) [
    | inl f ↦ absurd (cc (rw f at h))
    | inr f ↦ rw f (answer_ok (q (env.clock w.step) w.db) (tick w) a (rw f at h))
  ]

  finish_ok :
      (d : Db) (r : Result A) (w : World) (a : A)
      → (finish env d r w).0 ≡ ok a
      → (r ≡ ok a) × ((finish env d r w).1 ≡ tick w)
  finish_ok d (ok b) w a h = elim (Bool-cases (env.fails w.step)) [
    | inl f ↦ absurd (cc (rw f at h))
    | inr f ↦ rw f (rw f at h, refl)
  ]
  finish_ok d (err e) w a h = absurd (cc h)

  -- A transaction that is committed.
  pub with_tx_ok :
      (body : Action A) (w : World) (a : A)
      → (with_tx env body w).0 ≡ ok a
      → ((body (tick w)).0 ≡ ok a) × ((with_tx env body w).1 ≡ tick (body (tick w)).1)
  unfolding with_tx
  with_tx_ok body w a h = elim (Bool-cases (env.fails w.step)) [
    | inl f ↦ absurd (cc (rw f at h))
    | inr f ↦ rw f (finish_ok w.db (body (tick w)).0 (body (tick w)).1 a (rw f at h))
  ]

module _ {A : Type 0} where
  on_error_ok :
      (test : Err → Bool) (e : Err) (r : Result A) (w : World) (a : A)
      → (on_error test (raise e) r w).0 ≡ ok a
      → (r ≡ ok a) × ((on_error test (raise e) r w).1 ≡ w)
  unfolding raise
  on_error_ok test e (ok b) w a h = (h, refl)
  on_error_ok test e (err x) w a h = absurd (ground (arith, h))

  -- A call whose failure is at most renamed.
  pub rename_ok :
      (test : Err → Bool) (e : Err) (m : Action A) (w : World) (a : A)
      → (recover test (raise e) m w).0 ≡ ok a
      → ((m w).0 ≡ ok a) × ((recover test (raise e) m w).1 ≡ (m w).1)
  unfolding recover
  rename_ok test e m w a h = on_error_ok test e (m w).0 (m w).1 a h

module _ {A B : Type 0} where
  on_missing_ok :
      (r : Result A) (e : Err) (f : A → Action B) (w : World) (b : B)
      → (on_missing r (raise e) f w).0 ≡ ok b
      → (a : A) × (r ≡ ok a) × (on_missing r (raise e) f w ≡ f a w)
  unfolding raise
  on_missing_ok (ok a) e f w b h = (a, refl, refl)
  on_missing_ok (err x) e f w b h = absurd (ground (arith, h))

  -- A lookup without whose row the call fails.
  pub find_or_ok :
      (m : Action A) (e : Err) (f : A → Action B) (w : World) (b : B)
      → (find_or m (raise e) f w).0 ≡ ok b
      → (a : A) × ((m w).0 ≡ ok a) × (find_or m (raise e) f w ≡ f a (m w).1)
  unfolding find_or
  find_or_ok m e f w b h = on_missing_ok (m w).0 e f (m w).1 b h

pub guard_ok :
    (b : Bool) (e : Err) (w : World) (u : Unit {0})
    → (guard b e w).0 ≡ ok u
    → (b ≡ true) × ((guard b e w).1 ≡ w)
unfolding guard
guard_ok true e w u h = (refl, refl)
guard_ok false e w u h = absurd (cc h)

module _ (env : Env) {A B : Type 0} (q : Query A) (f : A → Action B) (w : World) (b : B) where
  -- A sequence that begins with a statement.
  pub exec_bind_ok :
      ((exec env q >>= f) w).0 ≡ ok b
      → (a : A) × (d : Db) × (q (env.clock w.step) w.db ≡ ok (a, d))
        × ((exec env q >>= f) w ≡ f a (record (tick w) { db = d }))
  exec_bind_ok h =
      let (a, r, e) = bind_ok (exec env q) f w b h in
      let (d, p, t) = exec_ok env q w a r in (a, d, p, e ∙ ap (f a) t)

  -- A sequence that begins with a statement whose failure is renamed.
  pub rename_bind_ok :
      (test : Err → Bool) (x : Err)
      → ((recover test (raise x) (exec env q) >>= f) w).0 ≡ ok b
      → (a : A) × (d : Db) × (q (env.clock w.step) w.db ≡ ok (a, d))
        × ((recover test (raise x) (exec env q) >>= f) w ≡ f a (record (tick w) { db = d }))
  rename_bind_ok test x h =
      let (a, r, e) = bind_ok (recover test (raise x) (exec env q)) f w b h in
      let (r', t') = rename_ok test x (exec env q) w a r in
      let (d, p, t) = exec_ok env q w a r' in (a, d, p, e ∙ ap (f a) (t' ∙ t))

-- A sequence whose first step succeeds goes on with the rest.
pub bind_step :
    {A B : Type 0} (m : Action A) (f : A → Action B) (w : World) (a : A)
    → (m w).0 ≡ ok a
    → (m >>= f) w ≡ f a (m w).1
unfolding ◌>>=◌
bind_step m f w a h = rw h refl

-- A branch that is taken, where the other fails.
pub branch_ok :
    {A : Type 0} (b : Bool) (m : Action A) (e : Err) (w : World) (a : A)
    → ((if b then m else raise e) w).0 ≡ ok a
    → (b ≡ true) × ((if b then m else raise e) w ≡ m w)
unfolding raise
branch_ok true m e w a h = (refl, refl)
branch_ok false m e w a h = absurd (cc h)
