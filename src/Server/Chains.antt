-- ===== src/Server/Chains.antt =====
-- The guards in the order in which Routes of internal/server/server.go puts them before a handler.
use go_spark.Base.{
  Text, Bool, true, false, not, ◌&&◌, Bool-cases, inl, inr, ◌⊎◌, none, some, is_some, Option-cases,
  ◌≡◌, refl, arith,
}
use go_spark.Schema.{User}
use go_spark.Effect.{Env, World, Result, ok, err, ◌>>=◌, handle}
use go_spark.Auth.Sessions.{user_by_session_token}
use go_spark.Server.{Server, Request}
use go_spark.Server.Cookies.{session_cookie_name}
use go_spark.Server.Guards.{
  Handler, csrf, is_unsafe_method, load_session, require_verified_auth, is_invalid_session,
}

module _ (env : Env) (s : Server) (check : Request → Bool) where
  -- A handler of a page for verified users.
  abbrev pub verified_page : Handler → Handler
  verified_page next = csrf check (load_session s env (require_verified_auth s next))

  -- The handler runs for the user of the request's session cookie, who is verified, and a request
  -- that may change something passed the cross-origin check.
  abbrev pub Runs : Handler → Request → World → Type 0
  Runs next r w =
      (value : Text) × (user : User) × (r.cookie session_cookie_name ≡ some value)
      × ((user_by_session_token env s.auth value w).0 ≡ ok user)
      × (is_some user.email_verified_at ≡ true)
      × ((is_unsafe_method r.method && not (check r)) ≡ false)
      × (verified_page next r w
          ≡ next (record r { user = some user }) (user_by_session_token env s.auth value w).1)

  -- The answer is the same whatever the handler is.
  abbrev pub Stopped : Handler → Request → World → Type 0
  Stopped next r w = (other : Handler) → verified_page next r w ≡ verified_page other r w

  loaded :
      (next : Handler) (r : Request) (w : World) (value : Text) (o : Result User)
      → r.user ≡ none
      → (is_unsafe_method r.method && not (check r)) ≡ false
      → r.cookie session_cookie_name ≡ some value
      → (user_by_session_token env s.auth value w).0 ≡ o
      → Runs next r w ⊎ Stopped next r w
  unfolding csrf load_session require_verified_auth handle ◌>>=◌
  loaded next r w value (ok user) nobody safe sent e =
      elim (Bool-cases (is_some user.email_verified_at)) [
        | inl v ↦ inl (value, user, sent, e, v, safe, ground (arith, safe, sent, e, v))
        | inr n ↦ inr (λ other. ground (arith, safe, sent, e, n))
      ]
  loaded next r w value (err x) nobody safe sent e = elim (Bool-cases (is_invalid_session x)) [
    | inl v ↦ inr (λ other. ground (arith, safe, sent, e, v, nobody))
    | inr n ↦ inr (λ other. ground (arith, safe, sent, e, n, nobody))
  ]

  -- A handler of a page for verified users runs only for the verified user whose session the
  -- request's cookie names, and behind the cross-origin check; in every other case the answer and
  -- what it leaves are the same whatever the handler does.
  pub verified_page_guards :
      (next : Handler) (r : Request) (w : World) → r.user ≡ none → Runs next r w ⊎ Stopped next r w
  unfolding csrf load_session require_verified_auth
  verified_page_guards next r w nobody =
      elim (Bool-cases (is_unsafe_method r.method && not (check r))) [
        | inl bad ↦ inr (λ other. rw bad refl)
        | inr safe ↦ elim (Option-cases (r.cookie session_cookie_name)) [
          | inl none_sent ↦ inr (λ other. ground (arith, safe, none_sent, nobody))
          | inr (value, sent) ↦ loaded next r w value _ nobody safe sent refl
        ]
      ]
