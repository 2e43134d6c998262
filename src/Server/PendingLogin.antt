-- ===== src/Server/PendingLogin.antt =====
-- The cookie between the two steps of a login, in internal/server/auth.go: what is signed is read
-- back, and only what was signed.
use go_spark.Base.{
  ℕ, ◌+◌, ◌/◌, ◌^◌, ◌<◌, ◌≤◌, ltb, Text, text_eq, Bool, true, false, Bool-cases, inl, inr, Option,
  none, some, ◌∷◌, ◌++◌, split-append, split_whole, cut, if◌then◌else◌, ◌≡◌, ◌≢◌, refl, ap, ◌∙◌,
  All, All-map, arith,
}
use go_spark.Effect.{Env, World, ok, ◌>>=◌}
use go_spark.Auth.Service.{seconds}
use go_spark.Server.{Server, Request, Cookie}
use go_spark.Server.Decimal.{decimal, is_digit, parse_int-decimal, decimal-IsDigits}
use go_spark.Server.SignedValue.{dot, sign_value, verify_value, verify-sign, verify_value_signed}
use go_spark.Server.Cookies.{
  TotpPendingLogin, PendingFields, pending_payload, parse_pending, parse_bool, bool_text, colon,
  totp_pending_key, set_totp_pending_cookie, totp_pending_login_from_cookie,
  totp_pending_cookie_name, totp_pending_cookie_ttl, unless_expired, signed_fields, parsed_value,
}

no_colon : (n : ℕ) → All (λ x. x ≢ colon) (decimal n)
no_colon n =
    All-map (λ c. is_digit c ≡ true) (λ x. x ≢ colon) (λ x d e. ground (arith, d, e)) (decimal n)
      (decimal-IsDigits n)

parse_bool-bool_text : (b : Bool) → parse_bool (bool_text b) ≡ some b
unfolding parse_bool text_eq
parse_bool-bool_text true = refl
parse_bool-bool_text false = refl

bool_no_colon : (b : Bool) → All (λ x. x ≢ colon) (bool_text b)
bool_no_colon true = omega arith
bool_no_colon false = omega arith

abbrev fields_of : ℕ → Bool → ℕ → PendingFields
fields_of user remember at = record {
  login = record { user_id = user; remember_me = remember };
  at = at;
}

-- The payload of a user and a time of an int64 is read back.
pub parse_pending-payload :
    (user : ℕ) (remember : Bool) (at : ℕ)
    → 0 < user
    → user < 2 ^ 63
    → at < 2 ^ 63
    → parse_pending (pending_payload user remember at) ≡ some (fields_of user remember at)
unfolding parse_pending pending_payload
parse_pending-payload user remember at pos u t =
    rw
      (split-append colon (decimal user) (bool_text remember ++ colon ∷ decimal at) (no_colon user))
      (rw (split-append colon (bool_text remember) (decimal at) (bool_no_colon remember)) (
        rw (split_whole colon (decimal at) (no_colon at)) (
          ground (
            arith,
            parse_int-decimal user u,
            parse_bool-bool_text remember,
            parse_int-decimal at t,
            pos,
          ))))

module _ (env : Env) (s : Server) where
  set_value :
      (r : Request) (user : ℕ) (remember : Bool) (w : World) (c : Cookie)
      → (set_totp_pending_cookie s r env user remember w).0 ≡ ok c
      → c.value
        ≡ sign_value s.auth.platform s.web
            (totp_pending_key s r)
            (pending_payload user remember (env.clock w.step / 1_000_000_000))
  unfolding set_totp_pending_cookie ◌>>=◌
  set_value r user remember w c h = ground (arith, h)

  same_key : (r r' : Request) → totp_pending_key s r ≡ totp_pending_key s r'
  unfolding totp_pending_key
  same_key r r' = refl

  -- Where decoding undoes encoding and no encoded text has a dot, the cookie that the first step of
  -- a login sets gives the user and the choice to be remembered back, until five minutes after the
  -- second in which it was set, and nothing after that.
  pub pending_login_back :
      ((t : Text) → s.web.base64_url_decode (s.web.base64_url_encode t) ≡ some t)
      → ((t : Text) → All (λ x. x ≢ dot) (s.web.base64_url_encode t))
      → (r : Request) (user : ℕ) (remember : Bool) (w : World) (c : Cookie) → 0 < user
      → user < 2 ^ 63
      → env.clock w.step / 1_000_000_000 < 2 ^ 63
      → (set_totp_pending_cookie s r env user remember w).0 ≡ ok c
      → (r' : Request) (later : World) → r'.cookie totp_pending_cookie_name ≡ some c.value
      → (totp_pending_login_from_cookie s r' env later).0
        ≡ ok (
            if ltb
              (seconds (env.clock w.step / 1_000_000_000) + totp_pending_cookie_ttl)
              (env.clock later.step)
            then none
            else some (record { user_id = user; remember_me = remember }))
  unfolding totp_pending_login_from_cookie ◌>>=◌
  pending_login_back decoded no_dot r user remember w c pos u t h r' later sent =
      let at = env.clock w.step / 1_000_000_000 in
      let fields : signed_fields s r' (r'.cookie totp_pending_cookie_name)
          ≡ some (fields_of user remember at) =
        ap (signed_fields s r') (sent ∙ ap some (set_value r user remember w c h))
        ∙ ap
            (λ key. parsed_value s r' (
              verify_value s.auth.platform s.web (totp_pending_key s r')
                (sign_value s.auth.platform s.web key (pending_payload user remember at))))
            (same_key r r')
        ∙ ap (parsed_value s r') (
            verify-sign s.auth.platform s.web decoded no_dot (totp_pending_key s r')
              (pending_payload user remember at))
        ∙ parse_pending-payload user remember at pos u t in
      ap (λ o. (unless_expired s r' env o later).0) fields

  parsed_ok :
      (r : Request) (o : Option Text) (f : PendingFields)
      → parsed_value s r o ≡ some f
      → (payload : Text) × (o ≡ some payload) × (parse_pending payload ≡ some f)
  parsed_ok r none f h = absurd (cc h)
  parsed_ok r (some payload) f h = (payload, refl, h)

  signed_ok :
      (r : Request) (o : Option Text) (f : PendingFields)
      → signed_fields s r o ≡ some f
      → (value payload : Text) × (o ≡ some value)
        × (verify_value s.auth.platform s.web (totp_pending_key s r) value ≡ some payload)
        × (parse_pending payload ≡ some f)
  signed_ok r none f h = absurd (cc h)
  signed_ok r (some value) f h =
      let (payload, e, q) =
        parsed_ok r (verify_value s.auth.platform s.web (totp_pending_key s r) value) f h in
      (value, payload, refl, e, q)

  unless_ok :
      (r : Request) (o : Option PendingFields) (w : World) (login : TotpPendingLogin)
      → (unless_expired s r env o w).0 ≡ ok (some login)
      → (f : PendingFields) × (o ≡ some f)
        × (f.login ≡ login)
        × (env.clock w.step ≤ seconds f.at + totp_pending_cookie_ttl)
  unfolding ◌>>=◌
  unless_ok r none w login h = absurd (cc h)
  unless_ok r (some f) w login h =
      elim (Bool-cases (ltb (seconds f.at + totp_pending_cookie_ttl) (env.clock w.step))) [
        | inl e ↦ absurd (ground (arith, e, h))
        | inr e ↦ (f, refl, ground (arith, e, h), ground (arith, e))
      ]

  -- What a pending cookie must be to count.
  abbrev pub Signed : Request → TotpPendingLogin → ℕ → Type 0
  Signed r login at =
      (value payload encoded_payload encoded_sig : Text) × (f : PendingFields) × (r.cookie
          totp_pending_cookie_name
        ≡ some value)
      × (cut dot value ≡ some (encoded_payload, encoded_sig))
      × (s.web.base64_url_decode encoded_payload ≡ some payload)
      × (s.web.base64_url_decode encoded_sig
          ≡ some (s.auth.platform.hmac_sha256 (totp_pending_key s r) payload))
      × (parse_pending payload ≡ some f)
      × (f.login ≡ login)
      × (at ≤ seconds f.at + totp_pending_cookie_ttl)

  -- A pending login is read only off a cookie whose payload names it and carries the HMAC of the
  -- payload under the server's key, and for five minutes after the time that the payload names.
  pub pending_login-Signed :
      (r : Request) (w : World) (login : TotpPendingLogin)
      → (totp_pending_login_from_cookie s r env w).0 ≡ ok (some login)
      → Signed r login (env.clock w.step)
  unfolding totp_pending_login_from_cookie
  pending_login-Signed r w login h =
      let (f, fields, same, fresh) = unless_ok r _ w login h in
      let (value, payload, sent, verified, parsed) =
        signed_ok r (r.cookie totp_pending_cookie_name) f fields in
      let (a, b, parts, text, sig) =
        verify_value_signed s.auth.platform s.web (totp_pending_key s r) value payload verified in
      (value, payload, a, b, f, sent, parts, text, sig, parsed, same, fresh)
