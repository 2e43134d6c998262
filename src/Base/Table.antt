-- ===== src/Base/Table.antt =====
-- A database table as the list of its rows: what WHERE, UPDATE, DELETE and INSERT do to it.
use Prim.Native.Nat.{ℕ, suc, ◌≤◌, max}
use mathlib.Core.Path.{◌≡◌, refl, ap, subst}
use mathlib.Core.Logic.{inl, inr}
use mathlib.Core.Bool.{Bool, true, false, not}
use mathlib.Core.Option.{Option, none, some}
use mathlib.Core.List.{List, [], ◌∷◌, ◌++◌}
use native.Mathlib.Omega.{arith}
use go_spark.Base.Tests.{if◌then◌else◌, Bool-cases}
use go_spark.Base.Lists.{length, All}

module _ {ℓ} {A : Type ℓ} where
  -- The first row that passes the test.
  unfoldable pub find_if : (A → Bool) → List A → Option A
  find_if p [] = none
  find_if p (x ∷ xs) = if p x then some x else find_if p xs

  -- The rows that pass the test, in order.
  unfoldable pub keep_if : (A → Bool) → List A → List A
  keep_if p [] = []
  keep_if p (x ∷ xs) = let rest = keep_if p xs in if p x then x ∷ rest else rest

  -- The rows that DELETE leaves.
  unfoldable pub delete_if : (A → Bool) → List A → List A
  unfolding keep_if
  delete_if p = keep_if (λ x. not (p x))

  -- UPDATE of the rows that pass the test.
  unfoldable pub update_if : (A → Bool) → (A → A) → List A → List A
  update_if p f [] = []
  update_if p f (x ∷ xs) = (if p x then f x else x) ∷ update_if p f xs

  -- The number of rows that pass the test, which SQLite reports as the rows affected.
  unfoldable pub count_if : (A → Bool) → List A → ℕ
  count_if p [] = 0
  count_if p (x ∷ xs) = let rest = count_if p xs in if p x then suc rest else rest

  -- The largest key of the table, and 0 for an empty one.
  unfoldable pub max_key : (A → ℕ) → List A → ℕ
  max_key k [] = 0
  max_key k (x ∷ xs) = max (k x) (max_key k xs)

module _ {ℓ} {A : Type ℓ} (p : A → Bool) where
  pub find_if-test : (xs : List A) {x : A} → find_if p xs ≡ some x → p x ≡ true
  unfolding find_if
  find_if-test [] h = cc
  find_if-test (y ∷ xs) {x} h = elim (Bool-cases (p y)) [
    | inl e ↦ ground arith
    | inr e ↦ find_if-test xs (ground arith)
  ]

  pub find_if-All {κ} :
      (P : A → Type κ) (xs : List A) {x : A} → All P xs → find_if p xs ≡ some x → P x
  unfolding find_if
  find_if-All P [] a h = cc
  find_if-All P (y ∷ xs) {x} a h = elim (Bool-cases (p y)) [
    | inl e ↦ let same : y ≡ x = ground arith in subst P same a.0
    | inr e ↦ find_if-All P xs a.1 (rw e at h)
  ]

  pub find_if-none : (xs : List A) → find_if p xs ≡ none → All (λ x. p x ≡ false) xs
  unfolding find_if
  find_if-none [] h = tt
  find_if-none (y ∷ xs) h = elim (Bool-cases (p y)) [
    | inl e ↦ cc
    | inr e ↦ (e, find_if-none xs (rw e at h))
  ]

  pub All-find_if-none : (xs : List A) → All (λ x. p x ≡ false) xs → find_if p xs ≡ none
  unfolding find_if
  All-find_if-none [] h = refl
  All-find_if-none (y ∷ xs) h = rw h.0 (All-find_if-none xs h.1)

  pub keep_if-test : (xs : List A) → All (λ x. p x ≡ true) (keep_if p xs)
  unfolding keep_if
  keep_if-test [] = tt
  keep_if-test (y ∷ xs) = elim (Bool-cases (p y)) [
    | inl e ↦ rw e (e, keep_if-test xs)
    | inr e ↦ rw e (keep_if-test xs)
  ]

  pub keep_if-All {κ} : (P : A → Type κ) (xs : List A) → All P xs → All P (keep_if p xs)
  unfolding keep_if
  keep_if-All P [] h = tt
  keep_if-All P (y ∷ xs) h = elim (Bool-cases (p y)) [
    | inl e ↦ rw e (h.0, keep_if-All P xs h.1)
    | inr e ↦ rw e (keep_if-All P xs h.1)
  ]

  pub update_if-All {κ λ'} :
      (P : A → Type κ) (Q : A → Type λ') (f : A → A)
      → ((x : A) → P x → p x ≡ true → Q (f x))
      → ((x : A) → P x → p x ≡ false → Q x)
      → (xs : List A) → All P xs
      → All Q (update_if p f xs)
  unfolding update_if
  update_if-All P Q f hit miss [] h = tt
  update_if-All P Q f hit miss (y ∷ xs) h = elim (Bool-cases (p y)) [
    | inl e ↦ rw e (hit y h.0 e, update_if-All P Q f hit miss xs h.1)
    | inr e ↦ rw e (miss y h.0 e, update_if-All P Q f hit miss xs h.1)
  ]

  pub count_if_zero : (xs : List A) → All (λ x. p x ≡ false) xs → count_if p xs ≡ 0
  unfolding count_if
  count_if_zero [] h = refl
  count_if_zero (y ∷ xs) h = rw h.0 (count_if_zero xs h.1)

  pub count_if_zero_iff : (xs : List A) → count_if p xs ≡ 0 → All (λ x. p x ≡ false) xs
  unfolding count_if
  count_if_zero_iff [] h = tt
  count_if_zero_iff (y ∷ xs) h = elim (Bool-cases (p y)) [
    | inl e ↦ absurd (omega (arith, rw e at h))
    | inr e ↦ (e, count_if_zero_iff xs (rw e at h))
  ]

module _ {ℓ} {A : Type ℓ} where
  pub find_if-append :
      (p : A → Bool) (xs : List A) (y x : A)
      → find_if p xs ≡ some x
      → find_if p (xs ++ y ∷ []) ≡ some x
  unfolding find_if
  find_if-append p [] y x h = cc
  find_if-append p (z ∷ xs) y x h = elim (Bool-cases (p z)) [
    | inl e ↦ rw e (rw e at h)
    | inr e ↦ rw e (find_if-append p xs y x (rw e at h))
  ]

module _ {ℓ} {A : Type ℓ} (p : A → Bool) where
  pub keep_if-keep_if : (xs : List A) → keep_if p (keep_if p xs) ≡ keep_if p xs
  unfolding keep_if
  keep_if-keep_if [] = refl
  keep_if-keep_if (x ∷ xs) = elim (Bool-cases (p x)) [
    | inl e ↦ rw e (rw e (rw (keep_if-keep_if xs)))
    | inr e ↦ rw e (keep_if-keep_if xs)
  ]

  pub length-keep_if-le : (xs : List A) → length (keep_if p xs) ≤ length xs
  unfolding keep_if
  length-keep_if-le [] = omega arith
  length-keep_if-le (x ∷ xs) = ground (arith, length-keep_if-le xs)

  pub length-update_if : (f : A → A) (xs : List A) → length (update_if p f xs) ≡ length xs
  unfolding update_if
  length-update_if f [] = refl
  length-update_if f (x ∷ xs) = omega (arith, length-update_if f xs)

  -- The rows of a kind that is not deleted are those that were.
  pub keep_if-delete_if :
      (q : A → Bool) (xs : List A)
      → ((x : A) → q x ≡ true → p x ≡ false)
      → keep_if q (delete_if p xs) ≡ keep_if q xs
  unfolding delete_if keep_if
  keep_if-delete_if q [] f = refl
  keep_if-delete_if q (x ∷ xs) f = elim (Bool-cases (p x)) [
    | inl e ↦ elim (Bool-cases (q x)) [
      | inl g ↦ absurd (ground (arith, e, f x g))
      | inr g ↦ rw (e, g) (keep_if-delete_if q xs f)
    ]
    | inr e ↦ rw (e, keep_if-delete_if q xs f) refl
  ]

  -- UPDATE of no row.
  pub update_if_none : (f : A → A) (xs : List A) → All (λ x. p x ≡ false) xs → update_if p f xs ≡ xs
  unfolding update_if
  update_if_none f [] h = refl
  update_if_none f (x ∷ xs) h = rw (h.0, update_if_none f xs h.1) refl

  pub keep_if-append : (xs ys : List A) → keep_if p (xs ++ ys) ≡ keep_if p xs ++ keep_if p ys
  unfolding keep_if
  keep_if-append [] ys = refl
  keep_if-append (x ∷ xs) ys = ground (arith, keep_if-append xs ys)

  pub keep_if_every : (xs : List A) → All (λ x. p x ≡ true) xs → keep_if p xs ≡ xs
  unfolding keep_if
  keep_if_every [] h = refl
  keep_if_every (x ∷ xs) h = rw h.0 (ap (λ l. x ∷ l) (keep_if_every xs h.1))

  pub keep_if_none : (xs : List A) → All (λ x. p x ≡ false) xs → keep_if p xs ≡ []
  unfolding keep_if
  keep_if_none [] h = refl
  keep_if_none (x ∷ xs) h = rw h.0 (keep_if_none xs h.1)
