-- ===== src/Rest/Tests.antt =====
-- Tests of the HTTP servers' parts.
use candi_plugin.Base.{◌+◌, ◌≡◌, refl, true, false, List, [], ◌∷◌, ◌++◌, none, some, map, arith}
use candi_plugin.Go.Int.{pos}
use candi_plugin.Go.Text.{codes, itoa}
use candi_plugin.Go.Outcome.{panics}
use candi_plugin.Candi.{Attributes}
use candi_plugin.Rest.Echo as Echo
use candi_plugin.Rest.Echo.{Context}
use candi_plugin.Rest.Fiber.Wrapper as Wrapper
use candi_plugin.Rest.Servers.Params.{context_of}
use candi_plugin.Rest.Echo.Logger.{or_if_empty, Colors, Seen, status_color, error_color, log_line}
use candi_plugin.Rest.Echo.Logger.Line.{strings, IsBare, log_line-strings}
use candi_plugin.Rest.Echo.Options.{
  cors, tracer, echo_logger, custom, http_handler_default_root, custom_http_error_handler, Env,
  set_http_port, add_root_middlewares,
}
use candi_plugin.Rest.Modules.{Module}
use candi_plugin.Rest.Echo.Server.{setup_rest_server}
use candi_plugin.Rest.Echo.Server.Setup.{setup_rest_server_chosen}
use candi_plugin.Rest.Fiber.Middlewares.{
  Request, status_of, traced, finishes, has_panicked, is_excluded, jaeger_tracing_middleware,
  recover_middleware,
}
use candi_plugin.Rest.Fiber.Middlewares.Tracing.{entered, recover_middleware-traced}
use candi_plugin.Rest.Fiber.Server.{setup_fiber_server}
use candi_plugin.Rest.Routes.{
  Calls, stop, call, handle, use_all, group, get, echo_calls, fiber_calls,
}
use candi_plugin.Rest.Routes.Mounting.{
  added, used, echo_route, fiber_route, routes_of, mount-routes,
}
use candi_plugin.Rest.Servers
use candi_plugin.Rest.Servers.{to_echo, to_fiber, echo_graphql, fiber_graphql}
use candi_plugin.Rest.Servers.Setup

abbrev params : Attributes
params = (codes "id", codes "7") ∷ []

abbrev visit : Context
visit = context_of (codes "/user/7") params

-- Two modules: one with a group of two routes, and one that mounts on the engine itself.
abbrev calls : Calls
calls = call (use_all (codes "auth" ∷ [])) (
    call
      (group (codes "/v1") []
        (call (handle get (codes "/users/") (codes "list") (codes "limit" ∷ [])) stop))
      stop)

mount-routes_example :
    (added (echo_calls [] calls) ≡ map echo_route (routes_of [] calls))
    × (added (fiber_calls [] calls) ≡ map fiber_route (routes_of [] calls))
    × (used (echo_calls [] calls) ≡ used (fiber_calls [] calls))
mount-routes_example = mount-routes [] calls

abbrev plain : Colors
plain = record {
  green_color = λ s. s;
  cyan_color = λ s. s;
  yellow_color = λ s. s;
  red_color = λ s. s;
}

abbrev seen : Seen
seen = record {
  time = codes "12:00";
  request_id = [];
  response_id = codes "r1";
  remote_ip = codes "::1";
  host = codes "h";
  method = codes "GET";
  uri = codes "/user/7";
  user_agent = codes "curl";
  status = 404;
  latency = codes "70";
  latency_human = codes "70ns";
  content_length = [];
  size = codes "0";
}

status_color-IsBare : IsBare (status_color plain seen.status)
unfolding status_color itoa
status_color-IsBare = ground arith

error_color-IsBare : IsBare (error_color plain (some (codes "gone")))
unfolding error_color
error_color-IsBare = ground arith

log_line-strings_example :
    strings (log_line plain seen (some (codes "gone")))
    ≡ codes "time"
      ∷ codes "12:00"
      ∷ codes "id"
      ∷ codes "r1"
      ∷ codes "remote_ip"
      ∷ codes "::1"
      ∷ codes "host"
      ∷ codes "h"
      ∷ codes "method"
      ∷ codes "GET"
      ∷ codes "uri"
      ∷ codes "/user/7"
      ∷ codes "user_agent"
      ∷ codes "curl"
      ∷ codes "status"
      ∷ codes "error"
      ∷ codes "gone"
      ∷ codes "latency"
      ∷ codes "latency_human"
      ∷ codes "70ns"
      ∷ codes "bytes_in"
      ∷ codes "bytes_out"
      ∷ []
unfolding or_if_empty error_color
log_line-strings_example =
    log_line-strings plain seen (some (codes "gone"))
      (record {
        time = ground arith;
        request_id = ground arith;
        response_id = ground arith;
        remote_ip = ground arith;
        host = ground arith;
        method = ground arith;
        uri = ground arith;
        user_agent = ground arith;
        latency = ground arith;
        latency_human = ground arith;
        content_length = ground arith;
        size = ground arith;
      })
      status_color-IsBare error_color-IsBare

abbrev env : Env
env = record {
  http_port = 8080;
  http_root_path = codes "/api";
  use_graphql = false;
  debug_mode = true;
  jaeger_max_packet_size = pos 65000;
  graphql_disable_introspection = false;
}

abbrev modules : List Module
modules = record { rest_handler = some calls; server_handler = none } ∷ []

setup_rest_server_chosen_example :
    let opts = add_root_middlewares (custom (codes "gzip") ∷ []) ∷ set_http_port 9000 ∷ [] in
    let h = setup_rest_server env none modules opts in
    (h.opt.http_port ≡ 9000)
    × (h.opt.root_path ≡ codes "/api")
    × (h.opt.root_handler ≡ http_handler_default_root)
    × (h.opt.error_handler ≡ custom_http_error_handler)
    × (h.opt.include_graphql ≡ false)
    × (h.listener ≡ none)
    × (h.opt.root_middlewares
        ≡ cors ∷ tracer (pos 65000) ∷ echo_logger true ∷ custom (codes "gzip") ∷ [])
setup_rest_server_chosen_example =
    setup_rest_server_chosen env none modules
      (add_root_middlewares (custom (codes "gzip") ∷ []) ∷ set_http_port 9000 ∷ [])

setup_servers-Agree_example :
    let opts = Servers.set_include_graphql true ∷ [] in
    let e = setup_rest_server env none modules (map to_echo opts) in
    let f = setup_fiber_server env modules (map to_fiber opts) in
    (e.opt.http_port ≡ f.opt.http_port)
    × (e.opt.root_path ≡ f.opt.root_path)
    × (e.opt.debug_mode ≡ f.opt.debug_mode)
    × (e.opt.jaeger_max_packet_size ≡ f.opt.jaeger_max_packet_size)
    × (echo_graphql e.server_engine ≡ (e.opt.root_path ++ codes "/graphql") ∷ [])
    × (fiber_graphql f.server_engine ≡ (e.opt.root_path ++ []) ∷ [])
setup_servers-Agree_example =
    Setup.setup_servers-Agree env none modules (Servers.set_include_graphql true ∷ [])

abbrev request : Request
request = record {
  path = codes "/user";
  method = codes "GET";
  headers = (codes "Accept", codes "*/*") ∷ [];
  raw_headers = codes "Accept: */*";
  body = [];
  original_url = codes "/user";
}

request-traced : is_excluded request.path ≡ false
unfolding is_excluded
request-traced = refl

-- A handler that panics: the trace is tagged with 200, and the client gets 500.
recover_middleware-traced_example :
    let before = entered (codes "2.40") (pos 10) request [] in
    let out =
      recover_middleware
        (λ log. none)
        (jaeger_tracing_middleware
          (codes "2.40")
          (pos 10)
          (λ log. ([], []))
          request
          (λ log. (panics (codes "nil map"), log)))
        [] in
    (traced before ≡ [])
    × (finishes before ≡ 0)
    × (has_panicked out.0 ≡ false)
    × (traced out.1 ≡ status_of before ∷ traced before)
    × (finishes out.1 ≡ 1 + finishes before)
    × (status_of out.1 ≡ 500)
recover_middleware-traced_example =
    recover_middleware-traced (λ log. none) (codes "2.40") (pos 10) (λ log. ([], [])) request
      (λ log. (panics (codes "nil map"), log)) [] request-traced
