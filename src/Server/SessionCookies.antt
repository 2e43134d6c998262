-- ===== src/Server/SessionCookies.antt =====
-- Which of the handlers of internal/server set a session cookie, and when: login of
-- auth_handlers.go and twoFactorChallenge of totp_handlers.go.
use go_spark.Base.{
  Text, codes, text_eq, Bool, true, false, ◌||◌, Option, none, some, List, [], ◌∷◌, ◌++◌, ◌≡◌, refl,
  sym, ap, ◌∙◌, subst, arith, find_if,
}
use go_spark.Schema.{UserTotp, Db}
use go_spark.Effect.{
  Env, Err, World, Action, Result, ok, err, ◌>>=◌, pure, handle, invalid_totp_code,
}
use go_spark.Effect.Success.{bind_ok}
use go_spark.Effect.Invariants.{Keeps, keeps_rules}
use go_spark.Queries.Totp.{is_enabled}
use go_spark.Validity.{Valid}
use go_spark.SecretCipher.{decrypt}
use go_spark.Auth.Totp.Login.{Passes, verify_totp_login_requires}
use go_spark.Server.PendingLogin.{Signed, pending_login-Signed}
use go_spark.Auth.Sessions.{AuthSession}
use go_spark.Auth.Totp.{verify_totp_login}
use go_spark.Server.{Server, Request, Form, Cookie, Response}
use go_spark.Server.Cookies.{
  session_cookie_name, set_session_cookie, totp_pending_login_from_cookie, TotpPendingLogin,
  PendingFields, unless_expired, signed_fields, totp_pending_cookie_name,
}
use go_spark.Server.Flash.{pop_flash}
use go_spark.Server.Pages.{render_new, internal_server_error, flash_cookies}
use go_spark.Server.Guards.{safe_redirect_path}
use go_spark.Server.Handlers.{parsed}
use go_spark.Server.Handlers.Login.{
  two_factor_challenge, challenge, challenge_done, challenge_failed,
}

-- Whether one of the cookies is the session cookie.
abbrev pub has_session : List Cookie → Bool
has_session [] = false
has_session (c ∷ cs) = text_eq c.name session_cookie_name || has_session cs

has_session-append :
    (a b : List Cookie)
    → has_session a ≡ false
    → has_session b ≡ false
    → has_session (a ++ b) ≡ false
has_session-append [] b ha hb = hb
has_session-append (c ∷ a) b ha hb = ground (arith, ha, has_session-append a b, hb)

module _ (s : Server) where
  flash_no_session :
      (r : Request) (o : Option Text)
      → r.cookie (codes "flash") ≡ o
      → has_session (flash_cookies s r) ≡ false
  unfolding pop_flash text_eq
  flash_no_session r none e = ground (arith, e)
  flash_no_session r (some v) e = ground (arith, e)

module _ (env : Env) (s : Server) where
  unless-Keeps :
      (r : Request) (P : Db → Type 0) (o : Option PendingFields)
      → Keeps P (unless_expired s r env o)
  unless-Keeps r P none = search (keeps_rules)
  unless-Keeps r P (some f) = search (keeps_rules) depth 20

  failed_no_session :
      (r : Request) (next : Text) (e : Err) (w : World) (a : Response)
      → (challenge_failed env s r next e w).0 ≡ ok a
      → has_session a.cookies ≡ false
  unfolding render_new internal_server_error pure
  failed_no_session r next invalid_totp_code w a h =
      let none_set = flash_no_session s r _ refl in
      let same : flash_cookies s r ≡ a.cookies = ground (arith, h) in
      subst (λ l. has_session l ≡ false) same none_set
  failed_no_session r next e w a h =
      let none_set = flash_no_session s r _ refl in
      let same : flash_cookies s r ++ flash_cookies s r ≡ a.cookies = ground (arith, h) in
      subst (λ l. has_session l ≡ false) same
        (has_session-append (flash_cookies s r) (flash_cookies s r) none_set none_set)

  -- A challenge whose answer sets a session cookie.
  answered :
      (r : Request) (next : Text) (pending : TotpPendingLogin) (code : Text) (w : World)
      (a : Response) (o : Result AuthSession)
      → (verify_totp_login env s.auth pending.user_id code w).0 ≡ o
      → (handle
          (verify_totp_login env s.auth pending.user_id code)
          (challenge_done env s r next pending)
          (challenge_failed env s r next)
          w).0
        ≡ ok a
      → has_session a.cookies ≡ true
      → (session : AuthSession) × (o ≡ ok session)
        × ((handle
              (verify_totp_login env s.auth pending.user_id code)
              (challenge_done env s r next pending)
              (challenge_failed env s r next)
              w).1.db
            ≡ (verify_totp_login env s.auth pending.user_id code w).1.db)
  unfolding handle set_session_cookie ◌>>=◌
  answered r next pending code w a (ok session) e h has = (session, refl, ground (arith, e))
  answered r next pending code w a (err x) e h has =
      let w' = (verify_totp_login env s.auth pending.user_id code w).1 in
      let same : (challenge_failed env s r next x w').0 ≡ ok a = ground (arith, e, h) in
      let fails = failed_no_session r next x w' a same in absurd (cc (has, fails))

  abbrev Issued : Request → TotpPendingLogin → Option Form → World → World → Type 0
  Issued r pending o w w' =
      (form : Form) × (session : AuthSession) × (o ≡ some form)
      × ((verify_totp_login env s.auth pending.user_id (form.value (codes "code")) w).0
          ≡ ok session)
      × (w'.db ≡ (verify_totp_login env s.auth pending.user_id (form.value (codes "code")) w).1.db)

  abbrev challenge_form : Request → TotpPendingLogin → Form → Action Response
  challenge_form r pending form =
      handle (verify_totp_login env s.auth pending.user_id (form.value (codes "code")))
        (challenge_done env s r (safe_redirect_path s.web (form.value (codes "next"))) pending)
        (challenge_failed env s r (safe_redirect_path s.web (form.value (codes "next"))))

  no_session : (a : Response) → [] ≡ a.cookies → has_session a.cookies ≡ true → ⊥
  no_session a e h = cc (subst (λ l. has_session l ≡ true) (sym e) h)

  posted :
      (r : Request) (pending : TotpPendingLogin) (o : Option Form) (w : World) (a : Response)
      → (parsed o (challenge_form r pending) w).0 ≡ ok a
      → has_session a.cookies ≡ true
      → Issued r pending o w (parsed o (challenge_form r pending) w).1
  unfolding parsed pure
  posted r pending none w a h has = absurd (no_session a (ground (arith, h)) has)
  posted r pending (some form) w a h has =
      let (session, e, left) =
        answered r (safe_redirect_path s.web (form.value (codes "next"))) pending
          (form.value (codes "code")) w a _ refl h has in
      (form, session, refl, e, left)

  challenged :
      (r : Request) (o : Option TotpPendingLogin) (w : World) (a : Response)
      → (challenge env s r o w).0 ≡ ok a
      → has_session a.cookies ≡ true
      → (pending : TotpPendingLogin) × (o ≡ some pending)
        × Issued r pending r.form w (challenge env s r o w).1
  unfolding pure
  challenged r none w a h has = absurd (no_session a (ground (arith, h)) has)
  challenged r (some pending) w a h has = (pending, refl, posted r pending r.form w a h has)

  read_only : (r : Request) (w : World) → (totp_pending_login_from_cookie s r env w).1.db ≡ w.db
  unfolding totp_pending_login_from_cookie
  read_only r w =
      let k : Keeps (λ d. d ≡ w.db)
          (unless_expired s r env (signed_fields s r (r.cookie totp_pending_cookie_name))) =
        unless-Keeps r (λ d. d ≡ w.db) (signed_fields s r (r.cookie totp_pending_cookie_name)) in
      k.at w refl

  -- The answer of the challenge sets a session cookie only for a request with a pending cookie that
  -- the server signed at most five minutes ago, for a user whose second factor is enabled, and with
  -- a code of that user's secret above the last accepted counter, or an unused backup code.
  pub challenge_sets_session :
      (r : Request) (w : World) (a : Response)
      → Valid w.db
      → (two_factor_challenge env s r w).0 ≡ ok a
      → has_session a.cookies ≡ true
      → (pending : TotpPendingLogin) × (form : Form) × (row : UserTotp) × (secret : Text) × Signed
          env s r pending
          (env.clock w.step)
        × (r.form ≡ some form)
        × (find_if (is_enabled pending.user_id) w.db.user_totp ≡ some row)
        × (decrypt s.auth.platform s.auth.totp_secrets row.secret ≡ ok secret)
        × Passes env s.auth pending.user_id (form.value (codes "code")) row secret w.db
  unfolding two_factor_challenge
  challenge_sets_session r w a v h has =
      let get = totp_pending_login_from_cookie s r env in
      let (o, e, q) = bind_ok get (challenge env s r) w a h in
      let w1 = (get w).1 in
      let (pending, is, (form, session, parsed, ok_login, _)) =
        challenged r o w1 a (ap (λ x. x.0) (sym q) ∙ h) has in
      let (row, secret, enabled, passes, _, _, _, _) =
        verify_totp_login_requires env s.auth pending.user_id (form.value (codes "code")) w1 session
          (subst Valid (sym (read_only r w)) v) ok_login in
      (
        pending,
        form,
        row,
        secret,
        pending_login-Signed env s r w pending (e ∙ ap ok is),
        parsed,
        subst (λ (d : Db). find_if (is_enabled pending.user_id) d.user_totp ≡ some row)
            (read_only r w) enabled.0,
        enabled.1,
        subst (λ d. Passes env s.auth pending.user_id (form.value (codes "code")) row secret d)
            (read_only r w) passes,
      )
