-- ===== src/Email/Processor/Limit.antt =====
-- How many rows ClaimPendingEmails (internal/db/generated/email.sql.go) takes at most.
use go_spark.Base.{
  ℕ, suc, ◌+◌, ◌≤◌, ◌≡◌, ◌≢◌, refl, ap, subst, inl, inr, List, [], ◌∷◌, Bool, false, ◌==◌, ◌||◌,
  All, Distinct, length, take, length-take-le, keep_if, order_by, map, Bool-cases, arith,
}
use go_spark.Schema.{EmailOutbox}
use go_spark.Queries.Outbox.{is_due, earlier, due_ids, member}

-- A list of `n` numbers chooses at most `n` rows.
keep_or-le :
    (p q : EmailOutbox → Bool) (rows : List EmailOutbox)
    → length (keep_if (λ r. p r || q r) rows) ≤ length (keep_if p rows) + length (keep_if q rows)
unfolding keep_if
keep_or-le p q [] = omega arith
keep_or-le p q (r ∷ rows) = ground (arith, keep_or-le p q rows)

keep_none :
    (i : ℕ) (rows : List EmailOutbox)
    → All (λ r. i ≢ r.id) rows
    → length (keep_if (λ r. r.id == i) rows) ≡ 0
unfolding keep_if
keep_none i [] h = refl
keep_none i (r ∷ rows) h = ground (arith, h.0, keep_none i rows h.1)

keep_one-le :
    (i : ℕ) (rows : List EmailOutbox)
    → Distinct (λ (r : EmailOutbox). r.id) rows
    → length (keep_if (λ r. r.id == i) rows) ≤ 1
unfolding keep_if
keep_one-le i [] d = omega arith
keep_one-le i (r ∷ rows) d = elim (Bool-cases (r.id == i)) [
  | inl e ↦
      (let same : r.id ≡ i = ground (arith, e) in
        ground (arith, e, keep_none i rows (subst (λ j. All (λ x. j ≢ x.id) rows) same d.0)))
  | inr e ↦ ground (arith, e, keep_one-le i rows d.1)
]

keep_never : (rows : List EmailOutbox) → length (keep_if (λ _. false) rows) ≡ 0
unfolding keep_if
keep_never [] = refl
keep_never (r ∷ rows) = keep_never rows

pub keep_member-le :
    (js : List ℕ) (rows : List EmailOutbox)
    → Distinct (λ (r : EmailOutbox). r.id) rows
    → length (keep_if (λ r. member r.id js) rows) ≤ length js
unfolding member
keep_member-le [] rows d = omega (arith, keep_never rows)
keep_member-le (j ∷ js) rows d = omega (
  arith,
  keep_or-le (λ r. r.id == j) (λ r. member r.id js) rows,
  keep_one-le j rows d,
  keep_member-le js rows d,
)

pub length-map : {A B : Type 0} (f : A → B) (xs : List A) → length (map f xs) ≡ length xs
length-map f [] = refl
length-map f (x ∷ xs) = ap (λ n. suc n) (length-map f xs)

pub due_ids-le : (at limit : ℕ) (rows : List EmailOutbox) → length (due_ids at limit rows) ≤ limit
unfolding due_ids
due_ids-le at limit rows = omega (
  arith,
  length-map (λ (r : EmailOutbox). r.id) (take limit (order_by earlier (keep_if (is_due at) rows))),
  length-take-le limit (order_by earlier (keep_if (is_due at) rows)),
)
