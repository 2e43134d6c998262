-- ===== src/Server/SignedValue.antt =====
-- Tamper-evident values: internal/server/signed_value.go, with the keys of internal/secret.
use go_spark.Base.{
  ℕ, Text, text_eq, text_eq_refl, text_eq_iff, Bool-cases, inl, inr, Option, none, some, ◌∷◌, ◌++◌,
  cut, cut-append, All, if◌then◌else◌, ◌≡◌, ◌≢◌, refl, ap, ◌∙◌, arith,
}
use go_spark.Platform.{Platform, Web}

-- '.'
abbrev pub dot : ℕ
dot = b'.'

module _ (p : Platform) (web : Web) where
  -- DeriveKey
  unfoldable pub derive_key : Text → Text → Text
  derive_key base purpose = p.hmac_sha256 base purpose

  unfoldable pub sign_value : Text → Text → Text
  sign_value key payload =
      web.base64_url_encode payload ++ dot ∷ web.base64_url_encode (p.hmac_sha256 key payload)

  abbrev check_sig : Text → Text → Option Text → Option Text
  check_sig key payload none = none
  check_sig key payload (some sig) =
      if text_eq sig (p.hmac_sha256 key payload) then some payload else none

  abbrev check_payload : Text → Text → Option Text → Option Text
  check_payload key encoded_sig none = none
  check_payload key encoded_sig (some payload) =
      check_sig key payload (web.base64_url_decode encoded_sig)

  abbrev check_parts : Text → Option (Text × Text) → Option Text
  check_parts key none = none
  check_parts key (some (encoded_payload, encoded_sig)) =
      check_payload key encoded_sig (web.base64_url_decode encoded_payload)

  unfoldable pub verify_value : Text → Text → Option Text
  verify_value key token = check_parts key (cut dot token)

module _ (p : Platform) (web : Web)
    (decoded : (t : Text) → web.base64_url_decode (web.base64_url_encode t) ≡ some t)
    (no_dot : (t : Text) → All (λ x. x ≢ dot) (web.base64_url_encode t)) where
  -- Where decoding undoes encoding and no encoded text has a dot, a value that was signed under a
  -- key verifies under it, and gives the payload.
  pub verify-sign :
      (key payload : Text) → verify_value p web key (sign_value p web key payload) ≡ some payload
  unfolding verify_value sign_value
  verify-sign key payload =
      rw
        (
          cut-append dot (web.base64_url_encode payload)
              (web.base64_url_encode (p.hmac_sha256 key payload)) (no_dot payload),
          decoded payload,
          decoded (p.hmac_sha256 key payload),
          text_eq_refl (p.hmac_sha256 key payload),
        )
        refl

module _ (p : Platform) (web : Web) where
  sig_ok :
      (key payload out : Text) (o : Option Text)
      → check_sig p web key payload o ≡ some out
      → (payload ≡ out) × (o ≡ some (p.hmac_sha256 key out))
  sig_ok key payload out none h = absurd (cc h)
  sig_ok key payload out (some sig) h =
      elim (Bool-cases (text_eq sig (p.hmac_sha256 key payload))) [
        | inr e ↦ absurd (cc (rw e at h))
        | inl e ↦
            let same : payload ≡ out = ground (arith, e, h) in
            (
              same,
              ap some
                  ((text_eq_iff sig (p.hmac_sha256 key payload)).0 e ∙ ap (p.hmac_sha256 key) same),
            )
      ]

  payload_ok :
      (key b out : Text) (o : Option Text)
      → check_payload p web key b o ≡ some out
      → (o ≡ some out) × (web.base64_url_decode b ≡ some (p.hmac_sha256 key out))
  payload_ok key b out none h = absurd (cc h)
  payload_ok key b out (some payload) h =
      let (same, sig) = sig_ok key payload out (web.base64_url_decode b) h in (ap some same, sig)

  parts_ok :
      (key out : Text) (o : Option (Text × Text))
      → check_parts p web key o ≡ some out
      → (encoded_payload encoded_sig : Text) × (o ≡ some (encoded_payload, encoded_sig))
        × (web.base64_url_decode encoded_payload ≡ some out)
        × (web.base64_url_decode encoded_sig ≡ some (p.hmac_sha256 key out))
  parts_ok key out none h = absurd (cc h)
  parts_ok key out (some (a, b)) h =
      let (payload, sig) = payload_ok key b out (web.base64_url_decode a) h in
      (a, b, refl, payload, sig)

  -- A value that verifies under a key is two encoded texts with a dot between, and the second is
  -- the HMAC of the payload under that very key: whoever made it could sign the payload.
  pub verify_value_signed :
      (key token payload : Text)
      → verify_value p web key token ≡ some payload
      → (encoded_payload encoded_sig : Text) × (cut dot token ≡ some (encoded_payload, encoded_sig))
        × (web.base64_url_decode encoded_payload ≡ some payload)
        × (web.base64_url_decode encoded_sig ≡ some (p.hmac_sha256 key payload))
  unfolding verify_value
  verify_value_signed key token payload h = parts_ok key payload (cut dot token) h
