-- ===== src/Examples/Serving.antt =====
-- A page for verified users, asked for with a session.
use go_spark.Base.{codes, text_eq, false, [], refl, find_if}
use go_spark.Server.{Request, see_other}
use go_spark.Server.Cookies.{session_cookie_name}
use go_spark.Server.Pages.{respond}
use go_spark.Server.Guards.{Handler, get}
use go_spark.Server.Routing.{Routing, Route, verified}
use go_spark.Server.Routing.Table.{route_for, auth_routes, project_routes}
use go_spark.Server.Routing.Guarded.{Answered, routes_guard}
use go_spark.Server.Handlers.Projects
use go_spark.Server.Paths
use go_spark.RateLimit.Limiter.{new_fixed_window_rate_limiter}
use go_spark.Examples.Fixtures.{env, world}
use go_spark.Examples.Challenges.{server, request}
use go_spark.Examples.Clients.{net}

abbrev elsewhere : Handler
elsewhere r = respond [] (see_other Paths.home)

abbrev routing : Routing
routing = record {
  net = net;
  trusted_proxies = [];
  rate_limit_policies = [];
  rate_limiter = new_fixed_window_rate_limiter;
  cross_origin = λ r. false;
  passkeys = record {
    page = elsewhere;
    register_begin = elsewhere;
    register_finish = elsewhere;
    rename = elsewhere;
    delete = elsewhere;
    login_begin = elsewhere;
    login_finish = elsewhere;
  };
}

abbrev projects_route : Route
projects_route = record {
  method = get;
  path = Paths.projects;
  guard = verified;
  limits = [];
  handler = Projects.projects_index env server;
  post_only = false;
}

abbrev projects_request : Request
projects_request = record (request session_cookie_name (codes "one")) {
  method = get;
  path = Paths.projects;
}

routes_guard_example : Answered env server routing projects_route projects_request world
unfolding route_for find_if text_eq auth_routes project_routes
routes_guard_example =
    routes_guard env server routing projects_route projects_request world refl refl refl
