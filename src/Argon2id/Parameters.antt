-- ===== src/Argon2id/Parameters.antt =====
-- The parameters in a hash of internal/auth/password_hasher.go, printed and read back.
use go_spark.Base.{
  ℕ, ◌^◌, ◌<◌, ◌≡◌, ◌≢◌, refl, ap, ◌∙◌, Text, codes, text_eq, false, true, some, [], ◌∷◌, ◌++◌,
  is_empty, All, All-map, split, split-append, split_whole, cut, cut-append, or_else, arith,
}
use go_spark.Platform.{Platform, Argon2}
use go_spark.Server.Decimal.{
  decimal, is_digit, decimal-IsDigits, parse_uint-decimal, decimal-ne_nil, parse_uint,
}
use go_spark.Argon2id.{
  Argon2idHasher, Argon2idHashParams, comma, equals, filled, read_entries, value_of, params_of,
  nonzero, parse_argon2id_params, params_text,
}

-- No character but digits is in a number in decimal.
pub decimal_without : (n c : ℕ) → is_digit c ≡ false → All (λ x. x ≢ c) (decimal n)
decimal_without n c h =
    All-map (λ x. is_digit x ≡ true) (λ x. x ≢ c) (λ x d e. cc (d, h, e)) (decimal n)
      (decimal-IsDigits n)

is_empty-decimal : (n : ℕ) → is_empty (decimal n) ≡ false
is_empty-decimal n = go (decimal n) (decimal-ne_nil n)
  where
    go : (t : Text) → t ≢ [] → is_empty t ≡ false
    go [] ne = absurd (ne refl)
    go (c ∷ t) ne = refl

entry :
    (key : ℕ) (n : ℕ)
    → key ≢ equals
    → filled (cut equals (key ∷ equals ∷ decimal n)) ≡ some (key ∷ [], decimal n)
entry key n ne =
    rw (cut-append equals (key ∷ []) (decimal n) (ne, tt)) (rw (is_empty-decimal n) refl)

module _ (h : Argon2idHasher) where
  -- The three parameters fit their types and none is zero.
  abbrev pub Fits : Type 0
  Fits =
      (h.memory_kib < 2 ^ 32)
      × (h.iterations < 2 ^ 32)
      × (h.threads < 2 ^ 8)
      × (h.memory_kib ≢ 0)
      × (h.iterations ≢ 0)
      × (h.threads ≢ 0)

abbrev pub params : Argon2idHasher → Argon2idHashParams
params h = record { memory_kib = h.memory_kib; iterations = h.iterations; threads = h.threads }

parameter : (bits n : ℕ) → n < 2 ^ bits → n ≢ 0 → nonzero (parse_uint bits (decimal n)) ≡ some n
parameter bits n b ne = rw (parse_uint-decimal bits n b) (ground (arith, ne))

-- A parameter as it is printed.
abbrev pub field : ℕ → ℕ → Text
field key n = key ∷ equals ∷ decimal n

field_without : (key n : ℕ) → key ≢ comma → All (λ x. x ≢ comma) (field key n)
field_without key n ne = (ne, ((omega arith), decimal_without n comma refl))

split-fields :
    (m t q : ℕ)
    → split comma (field b'm' m ++ comma ∷ (field b't' t ++ comma ∷ field b'p' q))
      ≡ field b'm' m ∷ field b't' t ∷ field b'p' q ∷ []
split-fields m t q =
    split-append comma (field b'm' m) (field b't' t ++ comma ∷ field b'p' q)
      (field_without b'm' m (omega arith))
    ∙ ap (λ l. field b'm' m ∷ l)
        (split-append comma (field b't' t) (field b'p' q) (field_without b't' t (omega arith)))
    ∙ ap (λ l. field b'm' m ∷ field b't' t ∷ l)
        (split_whole comma (field b'p' q) (field_without b'p' q (omega arith)))

or_else_nil : (t : Text) → or_else t [] ≡ t
or_else_nil [] = refl
or_else_nil (c ∷ t) = refl

read_fields :
    (m t q : ℕ)
    → read_entries (field b'm' m ∷ field b't' t ∷ field b'p' q ∷ [])
      ≡ some ((codes "m", decimal m) ∷ (codes "t", decimal t) ∷ (codes "p", decimal q) ∷ [])
unfolding read_entries
read_fields m t q =
    rw (entry b'm' m (omega arith), entry b't' t (omega arith), entry b'p' q (omega arith)) refl

module _ (p : Platform) (a : Argon2) (h : Argon2idHasher) where
  pub parse-params : Fits h → parse_argon2id_params (params_text p a h) ≡ some (params h)
  unfolding parse_argon2id_params value_of text_eq
  parse-params (m, t, q, m0, t0, q0) =
      ap (λ l. params_of (read_entries l)) (split-fields h.memory_kib h.iterations h.threads)
      ∙ ap params_of (read_fields h.memory_kib h.iterations h.threads)
      ∙ rw
          (
            or_else_nil (decimal h.iterations),
            or_else_nil (decimal h.threads),
            or_else_nil (decimal h.threads),
            parameter 32 h.memory_kib m m0,
            parameter 32 h.iterations t t0,
            parameter 8 h.threads q q0,
          )
          refl
