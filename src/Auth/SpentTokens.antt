-- ===== src/Auth/SpentTokens.antt =====
-- Tables of one-time tokens, and the rows of a hash that was consumed.
use go_spark.Base.{
  ℕ, Text, text_eq_iff, ◌≡◌, ◌≢◌, refl, sym, ◌∙◌, inl, inr, true, false, List, [], ◌∷◌, All,
  Distinct, none, some, is_some, find_if, update_if, find_if-test, find_if-All, All-find_if-none,
  All-map, update_if-All, Bool-cases, arith,
}
use go_spark.Schema.{Token}
use go_spark.Queries.Tokens.{by_hash, is_valid, consumed}

-- A table of rows that hold a token, and the update that consumes one.
module _ {A : Type 0} (token : A → Token) (use_up : ℕ → A → A) where
  -- Every row with the hash has been consumed.
  abbrev pub Spent : Text → List A → Type 0
  Spent hash rows =
      All (λ r. by_hash hash (token r) ≡ true → is_some (token r).consumed_at ≡ true) rows

  pub Spent-find_if :
      (hash : Text) (at : ℕ) (rows : List A)
      → Spent hash rows
      → find_if (λ r. is_valid hash at (token r)) rows ≡ none
  Spent-find_if hash at rows s =
      All-find_if-none (λ r. is_valid hash at (token r)) rows
        (All-map _ (λ r. is_valid hash at (token r) ≡ false) (λ r f. ground (arith, f)) rows s)

  has_hash :
      (hash : Text) (at : ℕ) (r : A)
      → is_valid hash at (token r) ≡ true
      → by_hash hash (token r) ≡ true
  has_hash hash at r h = ground (arith, h)

  -- Rows whose hashes differ do not both have the hash.
  other :
      (hash : Text) (at : ℕ) (x y : A)
      → is_valid hash at (token x) ≡ true
      → (token x).token_hash ≢ (token y).token_hash
      → by_hash hash (token y) ≡ false
  other hash at x y e ne = elim (Bool-cases (by_hash hash (token y))) [
    | inl i ↦
        absurd (ne ((text_eq_iff _ hash).0 (has_hash hash at x e) ∙ sym ((text_eq_iff _ hash).0 i)))
    | inr i ↦ i
  ]

  module _ (law : (at : ℕ) (r : A) → token (use_up at r) ≡ consumed at (token r)) where
    pub consume-Spent :
        (hash : Text) (at : ℕ) (rows : List A) {r : A}
        → Distinct (λ r. (token r).token_hash) rows
        → find_if (λ r. is_valid hash at (token r)) rows ≡ some r
        → Spent hash (update_if (λ r. is_valid hash at (token r)) (use_up at) rows)
    unfolding find_if update_if
    consume-Spent hash at [] d h = tt
    consume-Spent hash at (x ∷ xs) {r} d h = elim (Bool-cases (is_valid hash at (token x))) [
      | inl e ↦ rw e (
        (λ _. rw (law at x) refl),
        update_if-All (λ y. is_valid hash at (token y)) (λ y. by_hash hash (token y) ≡ false)
            (λ y. by_hash hash (token y) ≡ true → is_some (token y).consumed_at ≡ true) (use_up at)
            (λ y miss hit. absurd (ground (arith, miss, hit)))
            (λ y miss hit i. absurd (ground (arith, miss, i))) xs
            (All-map (λ y. (token x).token_hash ≢ (token y).token_hash)
              (λ y. by_hash hash (token y) ≡ false) (λ y ne. other hash at x y e ne) xs d.0),
      )
      | inr e ↦
          (let found : find_if (λ y. is_valid hash at (token y)) xs ≡ some r = rw e at h in
            rw e (
              (λ i. absurd (
                  find_if-All (λ y. is_valid hash at (token y))
                    (λ y. (token x).token_hash ≢ (token y).token_hash) xs d.0 found
                    ((text_eq_iff _ hash).0 i
                      ∙ sym (
                          (text_eq_iff _ hash).0 (
                            has_hash hash at r
                              (find_if-test (λ y. is_valid hash at (token y)) xs found)))))),
              consume-Spent hash at xs d.1 found,
            ))
    ]
