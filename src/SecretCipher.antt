-- ===== src/SecretCipher.antt =====
-- The cipher of secrets at rest: internal/auth/secret_cipher.go.
use go_spark.Base.{
  Text, Option, none, some, ◌++◌, ◌≡◌, length, take, drop, take-append, drop-append, ltb,
  if◌then◌else◌, arith, length-append, inl, inr, Bool-cases,
}
use go_spark.Effect.{Env, World, Result, ok, err, Action, ◌>>=◌, pure, draw, cipher_failure}
use go_spark.Platform.{Platform, Aead}

module _ (p : Platform) (c : Aead) where
  -- base64(nonce ‖ ciphertext), for a nonce.
  unfoldable pub sealed : Text → Text → Text
  sealed plaintext nonce = p.base64_std_encode (nonce ++ c.seal nonce plaintext)

  unfoldable pub encrypt : Env → Text → Action Text
  unfolding sealed
  encrypt env plaintext = do nonce ← draw env; pure (sealed plaintext nonce)

  abbrev opened : Option Text → Result Text
  opened none = err cipher_failure
  opened (some plaintext) = ok plaintext

  abbrev open_raw : Option Text → Result Text
  open_raw none = err cipher_failure
  open_raw (some raw) =
      if ltb (length raw) c.nonce_size
      then err cipher_failure
      else opened (c.open_sealed (take c.nonce_size raw) (drop c.nonce_size raw))

  unfoldable pub decrypt : Text → Result Text
  decrypt encoded = open_raw (p.base64_std_decode encoded)

module _ (p : Platform) (c : Aead)
    (decoded : (t : Text) → p.base64_std_decode (p.base64_std_encode t) ≡ some t)
    (opens : (nonce t : Text) → c.open_sealed nonce (c.seal nonce t) ≡ some t) where
  decrypt-sealed :
      (plaintext nonce : Text)
      → length nonce ≡ c.nonce_size
      → decrypt p c (sealed p c plaintext nonce) ≡ ok plaintext
  unfolding decrypt sealed
  decrypt-sealed plaintext nonce size =
      let raw = nonce ++ c.seal nonce plaintext in
      rw
        (
          decoded raw,
          ← size,
          take-append nonce (c.seal nonce plaintext),
          drop-append nonce (c.seal nonce plaintext),
          opens nonce plaintext,
        )
        (ground (arith, length-append nonce (c.seal nonce plaintext)))

  -- Where decoding undoes encoding, opening undoes sealing and the nonce that is drawn has the
  -- cipher's size, what `encrypt` returns decrypts to the plaintext.
  pub decrypt-encrypt :
      (env : Env) (plaintext encoded : Text) (w : World)
      → length (env.random w.step) ≡ c.nonce_size
      → (encrypt p c env plaintext w).0 ≡ ok encoded
      → decrypt p c encoded ≡ ok plaintext
  unfolding encrypt ◌>>=◌
  decrypt-encrypt env plaintext encoded w size h = elim (Bool-cases (env.fails w.step)) [
    | inl f ↦ absurd (cc (rw f at h))
    | inr f ↦
        let same : sealed p c plaintext (env.random w.step) ≡ encoded = ground (arith, f) in
        rw (← same) (decrypt-sealed plaintext (env.random w.step) size)
  ]
