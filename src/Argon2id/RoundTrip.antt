-- ===== src/Argon2id/RoundTrip.antt =====
-- What a hash of internal/auth/password_hasher.go verifies: the printed parameters are read back.
use go_spark.Base.{
  ℕ, ◌^◌, ◌<◌, ◌≡◌, ◌≢◌, refl, ap, ◌∙◌, Text, codes, text_eq, text_eq_refl, false, true, some, [],
  ◌∷◌, ◌++◌, length, is_empty, All, All-append, split, split-append, split_whole, has_prefix, arith,
}
use go_spark.Platform.{Platform, Argon2}
use go_spark.Server.Decimal.{decimal, parse_int-decimal}
use go_spark.Argon2id.{
  Argon2idHasher, new_argon2id_hasher, dollar, comma, argon2_version, argon2id_key_length,
  has_version, decode_argon2id_hash, read_parts, params_text, password_input, hash, compare, verify,
}
use go_spark.Argon2id.Parameters.{decimal_without, Fits, params, field, parse-params}

-- Five parts, each after a separator.
split-parts :
    (c : ℕ) (v w x y z : Text)
    → All (λ i. i ≢ c) v
    → All (λ i. i ≢ c) w
    → All (λ i. i ≢ c) x
    → All (λ i. i ≢ c) y
    → All (λ i. i ≢ c) z
    → split c (c ∷ (v ++ c ∷ (w ++ c ∷ (x ++ c ∷ (y ++ c ∷ z))))) ≡ [] ∷ v ∷ w ∷ x ∷ y ∷ z ∷ []
split-parts c v w x y z hv hw hx hy hz =
    split-append c [] (v ++ c ∷ (w ++ c ∷ (x ++ c ∷ (y ++ c ∷ z)))) tt
    ∙ ap (λ l. [] ∷ l)
        (split-append c v (w ++ c ∷ (x ++ c ∷ (y ++ c ∷ z))) hv
          ∙ ap (λ l. v ∷ l)
              (split-append c w (x ++ c ∷ (y ++ c ∷ z)) hw
                ∙ ap (λ l. w ∷ l)
                    (split-append c x (y ++ c ∷ z) hx
                      ∙ ap (λ l. x ∷ l)
                          (split-append c y z hy ∙ ap (λ l. y ∷ l) (split_whole c z hz)))))

long_enough : (t : Text) → length t ≡ argon2id_key_length → is_empty t ≡ false
long_enough [] h = absurd (omega (arith, h))
long_enough (c ∷ t) h = refl

module _ (p : Platform) (a : Argon2) (h : Argon2idHasher) where
  -- The key of a password under a salt.
  abbrev pub key_of : Text → Text → Text
  key_of salt password =
      a.id_key (password_input p a h password) salt h.iterations h.memory_kib h.threads
        argon2id_key_length

module _ (p : Platform) (a : Argon2)
    (undone : (t : Text) → a.base64_raw_decode (a.base64_raw_encode t) ≡ some t)
    (no_dollar : (t : Text) → All (λ x. x ≢ dollar) (a.base64_raw_encode t))
    (h : Argon2idHasher) where
  params_no_dollar : All (λ x. x ≢ dollar) (params_text p a h)
  params_no_dollar =
      let no : (n : ℕ) → All (λ x. x ≢ dollar) (decimal n) = λ n. decimal_without n dollar refl in
      let later : (key n : ℕ) → key ≢ dollar → All (λ x. x ≢ dollar) (field key n) =
        λ key n ne. (ne, ((omega arith), no n)) in
      let rest =
        All-append (λ x. x ≢ dollar) (field b't' h.iterations) (comma ∷ field b'p' h.threads)
          (later b't' h.iterations (omega arith))
          ((omega arith), later b'p' h.threads (omega arith)) in
      All-append (λ x. x ≢ dollar) (field b'm' h.memory_kib)
        (comma ∷ (field b't' h.iterations ++ comma ∷ field b'p' h.threads))
        (later b'm' h.memory_kib (omega arith)) ((omega arith), rest)

  abbrev name : Text
  name = codes "argon2id"

  abbrev version : Text
  version = codes "v=" ++ decimal argon2_version

  plain_name : All (λ x. x ≢ dollar) name
  plain_name = omega arith

  plain_version : All (λ x. x ≢ dollar) version
  plain_version = ((omega arith), ((omega arith), decimal_without argon2_version dollar refl))

  known_version : has_version version ≡ true
  unfolding has_prefix
  known_version = rw (parse_int-decimal argon2_version (omega arith)) refl

  -- Decoding gives what was hashed.
  decode-hash :
      (salt password : Text)
      → Fits h
      → is_empty salt ≡ false
      → is_empty (key_of p a h salt password) ≡ false
      → decode_argon2id_hash p a (hash p a h salt password)
        ≡ some (params h, salt, key_of p a h salt password)
  unfolding decode_argon2id_hash hash
  decode-hash salt password fits full long =
      let key = key_of p a h salt password in
      ap (read_parts p a) (
        split-parts dollar name version (params_text p a h) (a.base64_raw_encode salt)
          (a.base64_raw_encode key) plain_name plain_version params_no_dollar (no_dollar salt)
          (no_dollar key))
      ∙ rw
          (
            known_version,
            text_eq_refl name,
            parse-params p a h fits,
            undone salt,
            undone key,
            full,
            long,
          )
          refl

  verify-Fits :
      ((password salt : Text) (t m q n : ℕ) → length (a.id_key password salt t m q n) ≡ n)
      → (salt password other : Text) → Fits h
      → is_empty salt ≡ false
      → verify p a h (hash p a h salt password) other
        ≡ some (text_eq (key_of p a h salt password) (key_of p a h salt other))
  unfolding verify
  verify-Fits sized salt password other fits full =
      let key = key_of p a h salt password in
      let size =
        sized (password_input p a h password) salt h.iterations h.memory_kib h.threads
          argon2id_key_length in
      let long : is_empty key ≡ false = long_enough key size in
      ap (compare p a h other) (decode-hash salt password fits full long) ∙ rw size refl

new-Fits :
    (m t q : ℕ) (pepper : Text)
    → m < 2 ^ 32
    → t < 2 ^ 32
    → q < 2 ^ 8
    → Fits (new_argon2id_hasher m t q pepper)
unfolding new_argon2id_hasher
new-Fits m t q pepper hm ht hq = (
  ground (arith, hm),
  ground (arith, ht),
  ground (arith, hq),
  ground arith,
  ground arith,
  ground arith,
)

-- Where decoding undoes encoding, no encoded text has a dollar sign and a key has the length that
-- was asked for, a hash of a hasher over options that fit a uint32, a uint32 and a uint8, made
-- under a salt that is not empty, is verified without an error, and for just those passwords
-- whose key under that salt and the hasher's parameters is the hashed password's.
pub verify-hash :
    (p : Platform) (a : Argon2)
    → ((t : Text) → a.base64_raw_decode (a.base64_raw_encode t) ≡ some t)
    → ((t : Text) → All (λ x. x ≢ dollar) (a.base64_raw_encode t))
    → ((password salt : Text) (t m q n : ℕ) → length (a.id_key password salt t m q n) ≡ n)
    → (m t q : ℕ) (pepper salt password other : Text) → m < 2 ^ 32
    → t < 2 ^ 32
    → q < 2 ^ 8
    → is_empty salt ≡ false
    → verify p a
        (new_argon2id_hasher m t q pepper)
        (hash p a (new_argon2id_hasher m t q pepper) salt password)
        other
      ≡ some (
          text_eq
            (key_of p a (new_argon2id_hasher m t q pepper) salt password)
            (key_of p a (new_argon2id_hasher m t q pepper) salt other))
verify-hash p a undone no_dollar sized m t q pepper salt password other hm ht hq full =
    verify-Fits p a undone no_dollar (new_argon2id_hasher m t q pepper) sized salt password other
      (new-Fits m t q pepper hm ht hq) full
