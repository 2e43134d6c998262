-- ===== src/Server/Decimal.antt =====
-- Numbers in decimal: fmt.Sprintf("%d") and strconv.ParseInt as internal/server/auth.go and
-- auth_handlers.go use them.
use go_spark.Base.{
  ℕ, zero, suc, ◌+◌, ◌-◌, ◌*◌, ◌/◌, ◌%◌, ◌^◌, ◌<◌, ◌==◌, ◌&&◌, ltb, leb, Text, Bool, true,
  Bool-cases, inl, inr, Option, none, some, [], ◌∷◌, ◌++◌, if◌then◌else◌, ◌≡◌, ◌≢◌, refl, ap, ◌∙◌,
  All, All-append, arith,
}

-- The digits of a number, the last one split off in each round.
unfoldable pub digits_of : ℕ → ℕ → Text
digits_of zero n = []
digits_of (suc fuel) n =
    let more = digits_of fuel (n / 10) ++ (b'0' + n % 10) ∷ [] in
    if ltb n 10 then (b'0' + n) ∷ [] else more

-- A number is above that of its digits, so the fuel does not run out.
unfoldable pub decimal : ℕ → Text
unfolding digits_of
decimal n = digits_of (suc n) n

abbrev pub is_digit : ℕ → Bool
is_digit c = leb b'0' c && leb c b'9'

unfoldable pub read_digits : ℕ → Text → Option ℕ
read_digits acc [] = some acc
read_digits acc (c ∷ s) =
    let rest = read_digits (acc * 10 + (c - b'0')) s in if is_digit c then rest else none

abbrev bounded : Option ℕ → Option ℕ
bounded none = none
bounded (some n) = if ltb n (2 ^ 63) then some n else none

abbrev read_unsigned : Text → Option ℕ
read_unsigned [] = none
read_unsigned (c ∷ s) = bounded (read_digits 0 (c ∷ s))

-- strconv.ParseInt(s, 10, 64). Its callers refuse what is not positive, or too long ago, so that a
-- text with a minus sign is read as none here.
unfoldable pub parse_int : Text → Option ℕ
unfolding read_digits
parse_int [] = none
parse_int (c ∷ s) = if c == b'+' then read_unsigned s else read_unsigned (c ∷ s)

abbrev below : ℕ → Option ℕ → Option ℕ
below bound none = none
below bound (some n) = if ltb n bound then some n else none

-- strconv.ParseUint(s, 10, bits)
unfoldable pub parse_uint : ℕ → Text → Option ℕ
unfolding read_digits
parse_uint bits [] = none
parse_uint bits (c ∷ s) = below (2 ^ bits) (read_digits 0 (c ∷ s))

read_digits-append :
    (acc : ℕ) (s : Text) (n c : ℕ)
    → read_digits acc s ≡ some n
    → is_digit c ≡ true
    → read_digits acc (s ++ c ∷ []) ≡ some (n * 10 + (c - b'0'))
unfolding read_digits
read_digits-append acc [] n c h d = ground (arith, h, d)
read_digits-append acc (x ∷ s) n c h d = elim (Bool-cases (is_digit x)) [
  | inl e ↦ rw e (read_digits-append (acc * 10 + (x - b'0')) s n c (rw e at h) d)
  | inr e ↦ absurd (cc (rw e at h))
]

read_digits-digits_of : (fuel n : ℕ) → n < fuel → read_digits 0 (digits_of fuel n) ≡ some n
unfolding read_digits digits_of
read_digits-digits_of zero n h = absurd (omega arith)
read_digits-digits_of (suc fuel) n h = elim (Bool-cases (ltb n 10)) [
  | inl e ↦ ground (arith, e)
  | inr e ↦
      let ih = read_digits-digits_of fuel (n / 10) (ground (arith, h, e)) in
      let last =
        read_digits-append 0 (digits_of fuel (n / 10)) (n / 10) (b'0' + n % 10) ih (ground arith) in
      rw e (last ∙ ap some (omega arith))
]

-- Digits are no signs and no separators.
abbrev pub IsDigits : Text → Type 0
IsDigits = All (λ c. is_digit c ≡ true)

digits_of-IsDigits : (fuel n : ℕ) → IsDigits (digits_of fuel n)
unfolding digits_of
digits_of-IsDigits zero n = tt
digits_of-IsDigits (suc fuel) n = elim (Bool-cases (ltb n 10)) [
  | inl e ↦ rw e (ground (arith, e), tt)
  | inr e ↦ rw e (
      All-append (λ c. is_digit c ≡ true) (digits_of fuel (n / 10)) ((b'0' + n % 10) ∷ [])
        (digits_of-IsDigits fuel (n / 10)) (ground arith, tt))
]

read_shape :
    (s : Text) (n : ℕ)
    → IsDigits s
    → n < 2 ^ 63
    → s ≢ []
    → read_digits 0 s ≡ some n
    → parse_int s ≡ some n
unfolding parse_int
read_shape [] n d b ne h = absurd (ne refl)
read_shape (c ∷ s) n d b ne h = ground (arith, d.0, b, h)

append-ne_nil : (s : Text) (c : ℕ) → s ++ c ∷ [] ≢ []
append-ne_nil [] c h = cc
append-ne_nil (x ∷ s) c h = cc

digits_of-ne_nil : (fuel n : ℕ) → digits_of (suc fuel) n ≢ []
unfolding digits_of
digits_of-ne_nil fuel n h = elim (Bool-cases (ltb n 10)) [
  | inl e ↦ cc (rw e at h)
  | inr e ↦ append-ne_nil (digits_of fuel (n / 10)) (b'0' + n % 10) (rw e at h)
]

-- A number of an int64 that is printed in decimal is read back.
pub parse_int-decimal : (n : ℕ) → n < 2 ^ 63 → parse_int (decimal n) ≡ some n
unfolding decimal
parse_int-decimal n h =
    read_shape (digits_of (suc n) n) n (digits_of-IsDigits (suc n) n) h (digits_of-ne_nil n n)
      (read_digits-digits_of (suc n) n (omega arith))

uint_shape :
    (bits : ℕ) (s : Text) (n : ℕ)
    → n < 2 ^ bits
    → s ≢ []
    → read_digits 0 s ≡ some n
    → parse_uint bits s ≡ some n
unfolding parse_uint
uint_shape bits [] n b ne h = absurd (ne refl)
uint_shape bits (c ∷ s) n b ne h = ground (arith, b, h)

-- So is one of an unsigned width.
pub parse_uint-decimal : (bits n : ℕ) → n < 2 ^ bits → parse_uint bits (decimal n) ≡ some n
unfolding decimal
parse_uint-decimal bits n h =
    uint_shape bits (digits_of (suc n) n) n h (digits_of-ne_nil n n)
      (read_digits-digits_of (suc n) n (omega arith))

pub decimal-ne_nil : (n : ℕ) → decimal n ≢ []
unfolding decimal
decimal-ne_nil n = digits_of-ne_nil n n

-- What is printed has no character but digits.
pub decimal-IsDigits : (n : ℕ) → IsDigits (decimal n)
unfolding decimal
decimal-IsDigits n = digits_of-IsDigits (suc n) n
