-- ===== src/Examples/Hashes.antt =====
-- Hashing a password, with a key that is the password cut to its length.
use go_spark.Base.{
  ℕ, zero, suc, ◌≡◌, ◌≢◌, refl, arith, Text, codes, text_eq, length, false, some, [], ◌∷◌, All,
}
use go_spark.Platform.{Argon2}
use go_spark.Argon2id.{new_argon2id_hasher, dollar, password_input, hash, verify}
use go_spark.Argon2id.RoundTrip.{verify-hash}
use go_spark.Examples.Fixtures.{platform}
use go_spark.Examples.Challenges.{encode, decode, decode-encode}

unfoldable pub sized : ℕ → Text → Text
sized zero t = []
sized (suc n) [] = 0 ∷ sized n []
sized (suc n) (c ∷ t) = c ∷ sized n t

pub length-sized : (n : ℕ) (t : Text) → length (sized n t) ≡ n
unfolding sized
length-sized zero t = refl
length-sized (suc n) [] = ground (arith, length-sized n [])
length-sized (suc n) (c ∷ t) = ground (arith, length-sized n t)

pub encode_no_dollar : (t : Text) → All (λ x. x ≢ dollar) (encode t)
encode_no_dollar [] = tt
encode_no_dollar (c ∷ t) = ((omega arith), encode_no_dollar t)

abbrev pub argon2 : Argon2
argon2 = record {
  id_key = λ password salt t m q n. sized n password;
  base64_raw_encode = encode;
  base64_raw_decode = λ t. some (decode t);
}

verify-hash_example :
    verify platform argon2
      (new_argon2id_hasher 0 3 0 [])
      (hash platform argon2 (new_argon2id_hasher 0 3 0 []) (codes "salt") (codes "apple"))
      (codes "berry")
    ≡ some false
unfolding sized password_input text_eq new_argon2id_hasher
verify-hash_example =
    verify-hash platform argon2 decode-encode encode_no_dollar
      (λ password salt t m q n. length-sized n password) 0 3 0 [] (codes "salt") (codes "apple")
      (codes "berry") (omega arith) (omega arith) (omega arith) refl
