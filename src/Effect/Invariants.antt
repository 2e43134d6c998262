-- ===== src/Effect/Invariants.antt =====
-- Invariants of the database under a call, one rule for each way to build a call.
use go_spark.Base.{ℕ, ◌≡◌, refl, sym, subst, inl, inr, Bool, true, false, if◌then◌else◌, Bool-cases}
use go_spark.Schema.{Db}
use go_spark.Effect.Atomicity.{Reads}
use go_spark.Effect.{
  Err, Result, ok, err, Env, World, Action, Query, pure, raise, lift, guard, is_no_rows, find_or,
  recover, exec, now, draw, with_tx, ◌>>=◌, continue, on_missing, on_error, on_result, handle,
  finish, tick, answer,
}

-- `P` of the database that a statement leaves, if it goes well.
abbrev pub After : (P : Db → Type 0) {A : Type 0} → Result (A × Db) → Type 0
After P (ok (a, d)) = P d
After P (err e) = Unit

-- The statement keeps `P`, at whatever time.
pub record Maintains (P : Db → Type 0) {A : Type 0} (q : Query A) : Type 0 where
  pub at : (t : ℕ) (d : Db) → P d → After P (q t d)

-- The call keeps `P`, whether it fails or not.
pub record Keeps (P : Db → Type 0) {A : Type 0} (m : Action A) : Type 0 where
  pub at : (w : World) → P w.db → P (m w).1.db

module _ {P : Db → Type 0} {A : Type 0} where
  pub Keeps-pure : (a : A) → Keeps P (pure a)
  unfolding pure
  Keeps-pure a = record { at = λ w h. h }

  pub Keeps-raise : (e : Err) → Keeps P (raise {A = A} e)
  unfolding raise
  Keeps-raise e = record { at = λ w h. h }

  pub Keeps-lift : (r : Result A) → Keeps P (lift r)
  unfolding lift
  Keeps-lift r = record { at = λ w h. h }

  pub Keeps-if : (b : Bool) (m n : Action A) → Keeps P m → Keeps P n → Keeps P (if b then m else n)
  Keeps-if true m n km kn = km
  Keeps-if false m n km kn = kn

  handled_keeps :
      (test : Err → Bool) (handler : Action A) (r : Result A) (w : World)
      → Keeps P handler
      → P w.db
      → P (on_error test handler r w).1.db
  handled_keeps test handler (ok a) w k h = h
  handled_keeps test handler (err x) w k h = elim (Bool-cases (test x)) [
    | inl t ↦ rw t (k.at w h)
    | inr t ↦ rw t h
  ]

  pub Keeps-recover :
      (test : Err → Bool) (handler m : Action A)
      → Keeps P handler
      → Keeps P m
      → Keeps P (recover test handler m)
  unfolding recover
  Keeps-recover test handler m kh k = record {
    at = λ w h. handled_keeps test handler (m w).0 (m w).1 kh (k.at w h);
  }

module _ {P : Db → Type 0} where
  pub Keeps-guard : (b : Bool) (e : Err) → Keeps P (guard b e)
  unfolding guard
  Keeps-guard b e = record { at = λ w h. h }

  pub Keeps-now : (env : Env) → Keeps P (now env)
  unfolding now
  Keeps-now env = record { at = λ w h. h }

  pub Keeps-draw : (env : Env) → Keeps P (draw env)
  unfolding draw
  Keeps-draw env = record { at = λ w h. h }

module _ {P : Db → Type 0} {A B : Type 0} where
  later_keeps :
      (r : Result A) (w : World) (f : A → Action B)
      → ((a : A) → Keeps P (f a))
      → P w.db
      → P (continue r f w).1.db
  later_keeps (ok a) w f k h = (k a).at w h
  later_keeps (err x) w f k h = h

  pub Keeps-bind :
      (m : Action A) (f : A → Action B) → Keeps P m → ((a : A) → Keeps P (f a)) → Keeps P (m >>= f)
  unfolding ◌>>=◌
  Keeps-bind m f k l = record { at = λ w h. later_keeps (m w).0 (m w).1 f l (k.at w h) }

  missing_keeps :
      (r : Result A) (w : World) (missing : Action B) (found : A → Action B)
      → Keeps P missing
      → ((a : A) → Keeps P (found a))
      → P w.db
      → P (on_missing r missing found w).1.db
  missing_keeps (ok a) w missing found km kf h = (kf a).at w h
  missing_keeps (err x) w missing found km kf h = elim (Bool-cases (is_no_rows x)) [
    | inl t ↦ rw t (km.at w h)
    | inr t ↦ rw t h
  ]

  pub Keeps-find_or :
      (m : Action A) (missing : Action B) (found : A → Action B)
      → Keeps P m
      → Keeps P missing
      → ((a : A) → Keeps P (found a))
      → Keeps P (find_or m missing found)
  unfolding find_or
  Keeps-find_or m missing found k km kf = record {
    at = λ w h. missing_keeps (m w).0 (m w).1 missing found km kf (k.at w h);
  }

  handle_keeps :
      (r : Result A) (w : World) (found : A → Action B) (failed : Err → Action B)
      → ((a : A) → Keeps P (found a))
      → ((e : Err) → Keeps P (failed e))
      → P w.db
      → P (on_result r found failed w).1.db
  handle_keeps (ok a) w found failed kf ke h = (kf a).at w h
  handle_keeps (err x) w found failed kf ke h = (ke x).at w h

  pub Keeps-handle :
      (m : Action A) (found : A → Action B) (failed : Err → Action B)
      → Keeps P m
      → ((a : A) → Keeps P (found a))
      → ((e : Err) → Keeps P (failed e))
      → Keeps P (handle m found failed)
  unfolding handle
  Keeps-handle m found failed k kf ke = record {
    at = λ w h. handle_keeps (m w).0 (m w).1 found failed kf ke (k.at w h);
  }

module _ (P : Db → Type 0) (env : Env) {A : Type 0} where
  answer_keeps : (r : Result (A × Db)) (w : World) → P w.db → After P r → P (answer env r w).1.db
  answer_keeps (ok (a, d)) w h k = k
  answer_keeps (err e) w h k = h

  finish_keeps : (d : Db) (r : Result A) (w : World) → P d → P w.db → P (finish env d r w).1.db
  finish_keeps d (ok a) w hd h = elim (Bool-cases (env.fails w.step)) [
    | inl f ↦ rw f hd
    | inr f ↦ rw f h
  ]
  finish_keeps d (err x) w hd h = hd

module _ {P : Db → Type 0} (env : Env) {A : Type 0} where
  pub Keeps-exec : (q : Query A) → Maintains P q → Keeps P (exec env q)
  unfolding exec
  Keeps-exec q k = record {
    at = λ w h. elim (Bool-cases (env.fails w.step)) [
      | inl f ↦ rw f h
      | inr f ↦ rw f (
          answer_keeps P env (q (env.clock w.step) w.db) (tick w) h
            (k.at (env.clock w.step) w.db h))
    ];
  }

  pub Keeps-with_tx : (body : Action A) → Keeps P body → Keeps P (with_tx env body)
  unfolding with_tx
  Keeps-with_tx body k = record {
    at = λ w h. elim (Bool-cases (env.fails w.step)) [
      | inl f ↦ rw f h
      | inr f ↦
          rw f (finish_keeps P env w.db (body (tick w)).0 (body (tick w)).1 h (k.at (tick w) h))
    ];
  }

pub ruleset keeps_rules = (
  Keeps-pure, Keeps-raise, Keeps-lift, Keeps-if, Keeps-recover, Keeps-guard, Keeps-now, Keeps-draw,
  Keeps-bind, Keeps-find_or, Keeps-handle, Keeps-exec, Keeps-with_tx,
)

-- A statement that changes nothing keeps everything.
unchanged_keeps :
    (P : Db → Type 0) {A : Type 0} (d : Db) (r : Result (A × Db))
    → ((a : A) (d' : Db) → r ≡ ok (a, d') → d' ≡ d)
    → P d
    → After P r
unchanged_keeps P d (ok (a, d')) same h = subst P (sym (same a d' refl)) h
unchanged_keeps P d (err e) same h = tt

pub Maintains-of_Reads : {P : Db → Type 0} {A : Type 0} (q : Query A) → Reads q → Maintains P q
Maintains-of_Reads {P} q k = record { at = λ t d h. unchanged_keeps P d (q t d) (k.at t d) h }
