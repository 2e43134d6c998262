-- ===== src/Base/Keys.antt =====
-- Keys of a table: columns that tell its rows apart, and the row numbers that SQLite gives.
use Prim.Native.Nat.{ℕ, suc, ◌≤◌, ◌<◌}
use mathlib.Core.Path.{◌≡◌, refl, sym, subst, ◌∙◌}
use mathlib.Core.Logic.{◌≢◌, inl, inr}
use mathlib.Core.Bool.{Bool, true, false}
use mathlib.Core.Option.{Option, none, some}
use mathlib.Core.List.{List, [], ◌∷◌, ◌++◌}
use native.Mathlib.Omega.{arith}
use go_spark.Base.Tests.{if◌then◌else◌, Bool-cases, is_some}
use go_spark.Base.Lists.{All, All-append, All-map}
use go_spark.Base.Strings.{Text, text_eq, text_eq_iff}
use go_spark.Base.Table.{
  find_if, keep_if, update_if, max_key, keep_if-All, update_if-All, find_if-none, find_if-All,
  count_if, count_if_zero,
}

module _ {ℓ} {A : Type ℓ} where
  -- The key `k` tells the rows apart, as a UNIQUE column does.
  abbrev pub Distinct {κ} : {K : Type κ} → (A → K) → List A → Type (ℓ ⊔ κ)
  Distinct k [] = Unit
  Distinct k (x ∷ xs) = All (λ y. k x ≢ k y) xs × Distinct k xs

module _ {ℓ} {A : Type ℓ} (p : A → Bool) where
  pub keep_if-Distinct {κ} :
      {K : Type κ} (k : A → K) (xs : List A) → Distinct k xs → Distinct k (keep_if p xs)
  unfolding keep_if
  keep_if-Distinct k [] h = tt
  keep_if-Distinct k (y ∷ xs) h = elim (Bool-cases (p y)) [
    | inl e ↦ rw e (keep_if-All p (λ z. k y ≢ k z) xs h.0, keep_if-Distinct k xs h.1)
    | inr e ↦ rw e (keep_if-Distinct k xs h.1)
  ]

  pub update_if-Distinct {κ} :
      {K : Type κ} (k : A → K) (f : A → A)
      → ((x : A) → k (f x) ≡ k x)
      → (xs : List A) → Distinct k xs
      → Distinct k (update_if p f xs)
  unfolding update_if
  update_if-Distinct k f same [] h = tt
  update_if-Distinct k f same (y ∷ xs) h = (
    update_if-All p (λ z. k y ≢ k z) (λ z. k y' ≢ k z) f (λ x ne _ e. ne (sym head ∙ e ∙ same x))
        (λ x ne _ e. ne (sym head ∙ e)) xs h.0,
    update_if-Distinct k f same xs h.1,
  )
    where
      y' : A
      y' = if p y then f y else y

      head : k y' ≡ k y
      head = elim (Bool-cases (p y)) [ inl e ↦ rw e (same y) | inr e ↦ rw e refl ]

pub not_some {ℓ} : {A : Type ℓ} (o : Option A) → is_some o ≡ false → o ≡ none
not_some none h = refl
not_some (some a) h = cc

module _ {ℓ} {A : Type ℓ} where
  max_key-le : (k : A → ℕ) (n : ℕ) (xs : List A) → max_key k xs ≤ n → All (λ x. k x ≤ n) xs
  unfolding max_key
  max_key-le k n [] h = tt
  max_key-le k n (x ∷ xs) h = (omega arith, max_key-le k n xs (omega arith))

  -- A key above the largest one is new.
  pub max_key_fresh : (k : A → ℕ) (xs : List A) → All (λ x. k x ≢ suc (max_key k xs)) xs
  max_key_fresh k xs =
      All-map (λ x. k x ≤ max_key k xs) (λ x. k x ≢ suc (max_key k xs)) (λ x h. omega arith) xs
        (max_key-le k (max_key k xs) xs (omega arith))

  pub Distinct-append {κ} :
      {K : Type κ} (k : A → K) (xs : List A) (y : A)
      → Distinct k xs
      → All (λ x. k x ≢ k y) xs
      → Distinct k (xs ++ y ∷ [])
  Distinct-append k [] y d f = (tt, tt)
  Distinct-append k (x ∷ xs) y d f =
      (All-append (λ z. k x ≢ k z) xs (y ∷ []) d.0 (f.0, tt), Distinct-append k xs y d.1 f.1)

  -- A text that the WHERE of a UNIQUE check does not find is new to the column.
  pub fresh_text :
      (k : A → Text) (t : Text) (xs : List A)
      → is_some (find_if (λ x. text_eq (k x) t) xs) ≡ false
      → All (λ x. k x ≢ t) xs
  fresh_text k t xs h =
      All-map (λ x. text_eq (k x) t ≡ false) (λ x. k x ≢ t)
        (λ x miss same. cc ((text_eq_iff (k x) t).1 same)) xs
        (find_if-none (λ x. text_eq (k x) t) xs (not_some _ h))

-- A row that UPDATE keeps the key of is found by that key before and after.
module _ {ℓ} {A : Type ℓ} (q : A → Bool) where
  pub find_if-update_if :
      (p : A → Bool) (f : A → A)
      → ((x : A) → q (f x) ≡ q x)
      → (xs : List A) → is_some (find_if q (update_if p f xs)) ≡ is_some (find_if q xs)
  unfolding find_if update_if
  find_if-update_if p f same [] = refl
  find_if-update_if p f same (x ∷ xs) = ground (arith, same x, find_if-update_if p f same xs)

  pub find_if-keep_if :
      (p : A → Bool)
      → ((x : A) → q x ≡ true → p x ≡ true)
      → (xs : List A) → find_if q (keep_if p xs) ≡ find_if q xs
  unfolding find_if keep_if
  find_if-keep_if p kept [] = refl
  find_if-keep_if p kept (x ∷ xs) = ground (arith, kept x, find_if-keep_if p kept xs)

  pub find_if-append_some :
      (xs ys : List A) → is_some (find_if q xs) ≡ true → is_some (find_if q (xs ++ ys)) ≡ true
  unfolding find_if
  find_if-append_some [] ys h = cc
  find_if-append_some (x ∷ xs) ys h = ground (arith, find_if-append_some xs ys)

-- The row that a search finds is the only one with its key: a test that some row with the key
-- passes, it passes.
module _ {ℓ κ} {A : Type ℓ} {K : Type κ} (k : A → K) (p q : A → Bool) (x : A) where
  others_fail :
      ((z : A) → q z ≡ true → k z ≡ k x)
      → (ys : List A) → All (λ z. k x ≢ k z) ys
      → All (λ z. q z ≡ false) ys
  others_fail same =
      All-map (λ z. k x ≢ k z) (λ z. q z ≡ false)
        λ z ne. elim (Bool-cases (q z)) [ inl e ↦ absurd (ne (sym (same z e))) | inr e ↦ e ]

  pub find_if-Distinct_test :
      ((z : A) → q z ≡ true → k z ≡ k x)
      → (xs : List A) → Distinct k xs
      → find_if p xs ≡ some x
      → 0 < count_if q xs
      → q x ≡ true
  unfolding find_if count_if
  find_if-Distinct_test same [] d h c = cc
  find_if-Distinct_test same (y ∷ ys) d h c = elim (Bool-cases (p y)) [
    | inl e ↦
        (let is_x : y ≡ x = ground (arith, e, h) in
          elim (Bool-cases (q y)) [
            | inl f ↦ rw is_x at f
            | inr f ↦ absurd (
                ground (
                  arith,
                  f,
                  c,
                  count_if_zero q ys
                      (others_fail same ys (subst (λ z. All (λ t. k z ≢ k t) ys) is_x d.0)),
                ))
          ])
    | inr e ↦ elim (Bool-cases (q y)) [
      | inl f ↦ absurd (find_if-All p (λ z. k y ≢ k z) ys d.0 (rw e at h) (same y f))
      | inr f ↦ find_if-Distinct_test same ys d.1 (rw e at h) (rw f at c)
    ]
  ]
