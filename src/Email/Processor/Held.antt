-- ===== src/Email/Processor/Held.antt =====
-- The claims that the worker (internal/email/processor.go) has on the rows of the outbox.
use go_spark.Base.{
  ℕ, Text, text_eq_refl, ◌≡◌, ◌≢◌, refl, inl, inr, List, [], ◌∷◌, Bool, true, false, is_some, All,
  All-map, Distinct, find_if, keep_if, update_if, map, Bool-cases, arith,
}
use go_spark.Schema.{EmailOutbox}
use go_spark.Queries.Outbox.{is_claim, claimed}
use go_spark.Email.OutboxStore.{OutboxEmail}
use go_spark.Email.Processor.Claims.{All-mapped}

abbrev pub is_held : List EmailOutbox → OutboxEmail → Bool
is_held rows m = is_some (find_if (is_claim m.id m.claim_token) rows)

abbrev pub Held : List OutboxEmail → List EmailOutbox → Type 0
Held ms rows = All (λ m. is_held rows m ≡ true) ms

-- A change to another row leaves the claims on this one.
pub still_held :
    (m n : OutboxEmail) (change : EmailOutbox → EmailOutbox) (rows : List EmailOutbox)
    → ((r : EmailOutbox) → (change r).id ≡ r.id)
    → m.id ≢ n.id
    → is_held rows n ≡ true
    → is_held (update_if (is_claim m.id m.claim_token) change rows) n ≡ true
unfolding find_if update_if
still_held m n change [] same ne h = h
still_held m n change (x ∷ xs) same ne h = elim (Bool-cases (is_claim m.id m.claim_token x)) [
  | inl e ↦
      (let other : is_claim n.id n.claim_token x ≡ false = ground (arith, e, ne) in
        let after : is_claim n.id n.claim_token (change x) ≡ false =
          ground (arith, e, ne, same x) in
        rw (e, after) (still_held m n change xs same ne (rw other at h)))
  | inr e ↦ elim (Bool-cases (is_claim n.id n.claim_token x)) [
    | inl g ↦ rw (e, g) refl
    | inr g ↦ rw (e, g) (still_held m n change xs same ne (rw g at h))
  ]
]

module _ {A B : Type 0} (f : A → B) where
  pub Distinct-mapped :
      (k : B → ℕ) (xs : List A) → Distinct (λ x. k (f x)) xs → Distinct k (map f xs)
  Distinct-mapped k [] d = tt
  Distinct-mapped k (x ∷ xs) d =
      (All-mapped f (λ y. k (f x) ≢ k y) xs d.0, Distinct-mapped k xs d.1)

-- What was just claimed is held.
pub claimed_held :
    (q : EmailOutbox → Bool) (at expires : ℕ) (token : Text) (rows : List EmailOutbox)
    → All
        (λ r.
          is_some (find_if (is_claim r.id token) (update_if q (claimed at expires token) rows))
          ≡ true)
        (keep_if q rows)
unfolding find_if update_if keep_if
claimed_held q at expires token [] = tt
claimed_held q at expires token (x ∷ xs) =
    let weaker =
      All-map
        (λ r.
          is_some (find_if (is_claim r.id token) (update_if q (claimed at expires token) xs))
          ≡ true)
        (λ r.
          is_some (find_if (is_claim r.id token) (update_if q (claimed at expires token) (x ∷ xs)))
          ≡ true)
        (λ r h. ground (arith, h)) (keep_if q xs) (claimed_held q at expires token xs) in
    elim (Bool-cases (q x)) [
      | inl e ↦ rw e (ground (arith, text_eq_refl token), rw e at weaker)
      | inr e ↦ rw e (rw e at weaker)
    ]
