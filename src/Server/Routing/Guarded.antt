-- ===== src/Server/Routing/Guarded.antt =====
-- The routes for verified users, behind everything that internal/server/server.go puts before them.
use go_spark.Base.{
  Text, true, false, not, ◌&&◌, Bool-cases, inl, inr, ◌⊎◌, Option, none, some, is_some, ◌≡◌, refl,
  ap, ◌∙◌, ltb,
}
use go_spark.Schema.{User}
use go_spark.Effect.{Env, World, Result, ok, err, ◌>>=◌, handle, on_result}
use go_spark.Auth.Sessions.{user_by_session_token}
use go_spark.Server.{Server, Request}
use go_spark.Server.Cookies.{session_cookie_name}
use go_spark.Server.Guards.{
  Handler, csrf, is_unsafe_method, load_session, load_cookie, require_verified_auth,
  on_session_error, is_invalid_session,
}
use go_spark.Server.Chains.{verified_page, verified_page_guards}
use go_spark.Server.Routing.{
  Routing, Route, verified, limited, guarded, limit_request_body, max_request_body_bytes,
}
use go_spark.Server.Routing.Table.{route_for, dynamic, served, routes}

module _ (env : Env) (s : Server) (g : Routing) (a : Route) where
  -- The inner mux is the guarded handler of the route that a method and a path select.
  dynamic-route :
      (r : Request)
      → route_for env s g r.method r.path ≡ some a
      → a.guard ≡ verified
      → (w : World)
      → dynamic env s g r w ≡ require_verified_auth s (limited env s g a.limits a.handler) r w
  unfolding dynamic
  dynamic-route r found guard w =
      ap (λ o. served env s g o r w) found
      ∙ ap (λ k. guarded env s g k (limited env s g a.limits a.handler) r w) guard

  abbrev page : Handler
  page = require_verified_auth s (limited env s g a.limits a.handler)

  alike :
      (r : Request)
      → route_for env s g r.method r.path ≡ some a
      → a.guard ≡ verified
      → (o : Result User) (w : World)
      → on_result o
          (λ user. dynamic env s g (record r { user = some user }))
          (on_session_error s r (dynamic env s g) env)
          w
        ≡ on_result o
            (λ user. page (record r { user = some user }))
            (on_session_error s r page env)
            w
  unfolding ◌>>=◌
  alike r found guard (ok user) w = dynamic-route (record r { user = some user }) found guard w
  alike r found guard (err x) w = elim (Bool-cases (is_invalid_session x)) [
    | inl v ↦ rw (v, dynamic-route r found guard w) refl
    | inr n ↦ rw n refl
  ]

  -- loadSession changes neither the method nor the path.
  load_session-route :
      (r : Request)
      → route_for env s g r.method r.path ≡ some a
      → a.guard ≡ verified
      → (o : Option Text) (w : World)
      → load_cookie s env (dynamic env s g) r o w ≡ load_cookie s env page r o w
  unfolding handle
  load_session-route r found guard none w = dynamic-route r found guard w
  load_session-route r found guard (some value) w =
      alike r found guard (user_by_session_token env s.auth value w).0
        (user_by_session_token env s.auth value w).1

  -- What serves a request for the route, if its body is not declared too large.
  routes-page :
      (r : Request) (w : World)
      → route_for env s g r.method r.path ≡ some a
      → a.guard ≡ verified
      → (is_unsafe_method r.method && ltb max_request_body_bytes r.content_length) ≡ false
      → routes env s g r w
        ≡ verified_page env s g.cross_origin (limited env s g a.limits a.handler) r w
  unfolding routes limit_request_body csrf load_session
  routes-page r w found guard small =
      rw small (elim (Bool-cases (is_unsafe_method r.method && not (g.cross_origin r))) [
        | inl bad ↦ rw bad refl
        | inr safe ↦ rw safe (load_session-route r found guard (r.cookie session_cookie_name) w)
      ])

  too_large :
      (r : Request) (w : World)
      → (is_unsafe_method r.method && ltb max_request_body_bytes r.content_length) ≡ true
      → (other : Handler)
      → routes env s g r w ≡ limit_request_body (verified_page env s g.cross_origin other) r w
  unfolding routes limit_request_body
  too_large r w big other = rw big refl

  -- The route's handler behind its limits.
  abbrev pub action : Handler
  action = limited env s g a.limits a.handler

  -- What an answer for a route for verified users can be.
  abbrev pub Answered : Request → World → Type 0
  Answered r w =
      ((value : Text) × (user : User) × (r.cookie session_cookie_name ≡ some value)
        × ((user_by_session_token env s.auth value w).0 ≡ ok user)
        × (is_some user.email_verified_at ≡ true)
        × ((is_unsafe_method r.method && not (g.cross_origin r)) ≡ false)
        × (routes env s g r w
            ≡ action (record r { user = some user }) (user_by_session_token env s.auth value w).1))
      ⊎ ((other : Handler)
          → routes env s g r w ≡ limit_request_body (verified_page env s g.cross_origin other) r w)

  -- Where the table has a route for verified users for the method and the path of a request that no
  -- guard has seen, its handler runs, behind its limits, only for the verified user whose session
  -- the request's cookie names, and after the cross-origin check where the method may change
  -- something; else the answer and what it leaves are those of every handler in its place.
  pub routes_guard :
      (r : Request) (w : World)
      → r.user ≡ none
      → route_for env s g r.method r.path ≡ some a
      → a.guard ≡ verified
      → Answered r w
  unfolding limit_request_body
  routes_guard r w nobody found guard =
      elim (Bool-cases (is_unsafe_method r.method && ltb max_request_body_bytes r.content_length)) [
        | inl big ↦ inr (λ other. too_large r w big other)
        | inr small ↦ elim (verified_page_guards env s g.cross_origin action r w nobody) [
          | inl (value, user, sent, session, is_verified, safe, runs) ↦ inl (
            value,
            user,
            sent,
            session,
            is_verified,
            safe,
            routes-page r w found guard small ∙ runs,
          )
          | inr stopped ↦
              inr (λ other. routes-page r w found guard small ∙ stopped other ∙ rw small refl)
        ]
      ]
