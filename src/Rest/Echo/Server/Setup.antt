-- ===== src/Rest/Echo/Server/Setup.antt =====
-- What SetupRESTServer of echo-rest/utils.go makes of the environment and the caller's options.
use candi_plugin.Base.{ℕ, ◌≡◌, refl, Bool, List, [], ◌∷◌, ◌++◌, Option, none, some, arith}
use candi_plugin.Go.Text.{Bytes}
use candi_plugin.Candi.{last_of}
use candi_plugin.Rest.Echo.Options.{
  Middleware, cors, tracer, echo_logger, RootHandler, http_handler_default_root, ErrorHandler,
  custom_http_error_handler, Env, Options, OptionFunc, set_http_port, set_root_path,
  set_root_http_handler, set_shared_listener, set_include_graphql, set_root_middlewares,
  add_root_middlewares, set_error_handler, get_default_option, apply_option, apply_options,
  env_options,
}
use candi_plugin.Rest.Modules.{Module}
use candi_plugin.Rest.Echo.Server.{new_server, setup_rest_server}

abbrev pub port_of : OptionFunc → Option ℕ
port_of (set_http_port port) = some port
port_of _ = none

abbrev pub path_of : OptionFunc → Option Bytes
path_of (set_root_path path) = some path
path_of _ = none

abbrev pub handler_of : OptionFunc → Option RootHandler
handler_of (set_root_http_handler handler) = some handler
handler_of _ = none

abbrev pub error_handler_of : OptionFunc → Option ErrorHandler
error_handler_of (set_error_handler handler) = some handler
error_handler_of _ = none

abbrev pub graphql_of : OptionFunc → Option Bool
graphql_of (set_include_graphql b) = some b
graphql_of _ = none

abbrev pub listener_of : OptionFunc → Option (Option Bytes)
listener_of (set_shared_listener listener) = some listener
listener_of _ = none

-- The middlewares: the last list that was set, and what was added behind it.
abbrev pub middlewares_of : List OptionFunc → List Middleware → List Middleware
middlewares_of [] ms = ms
middlewares_of (set_root_middlewares ns ∷ opts) ms = middlewares_of opts ns
middlewares_of (add_root_middlewares ns ∷ opts) ms = middlewares_of opts (ms ++ ns)
middlewares_of (opt ∷ opts) ms = middlewares_of opts ms

-- The options, field by field, of a server whose options were o before.
pub record Chosen (opts : List OptionFunc) (o r : Options) : Type 0 where
  pub port : r.http_port ≡ last_of port_of opts o.http_port
  pub path : r.root_path ≡ last_of path_of opts o.root_path
  pub handler : r.root_handler ≡ last_of handler_of opts o.root_handler
  pub errors : r.error_handler ≡ last_of error_handler_of opts o.error_handler
  pub graphql : r.include_graphql ≡ last_of graphql_of opts o.include_graphql
  pub listener : r.shared_listener ≡ last_of listener_of opts o.shared_listener
  pub middlewares : r.root_middlewares ≡ middlewares_of opts o.root_middlewares

apply_options-Chosen : (opts : List OptionFunc) (o : Options) → Chosen opts o (apply_options opts o)
unfolding apply_options apply_option
apply_options-Chosen [] o = record {
  port = refl;
  path = refl;
  handler = refl;
  errors = refl;
  graphql = refl;
  listener = refl;
  middlewares = refl;
}
apply_options-Chosen (opt ∷ opts) o = ground (arith, apply_options-Chosen opts (apply_option opt o))

-- SetupRESTServer: each of the port, the root path, the handlers, GraphQL and the listener is what the
-- caller's last option for it says, and else the environment's, or the default where the environment
-- has none; and the root middlewares are the caller's last list, or the three of the default, with
-- those that the caller added behind them.
pub setup_rest_server_chosen :
    (env : Env) (listener : Option Bytes) (ms : List Module) (opts : List OptionFunc)
    → let h = setup_rest_server env listener ms opts in
      (h.opt.http_port ≡ last_of port_of opts env.http_port)
      × (h.opt.root_path ≡ last_of path_of opts env.http_root_path)
      × (h.opt.root_handler ≡ last_of handler_of opts http_handler_default_root)
      × (h.opt.error_handler ≡ last_of error_handler_of opts custom_http_error_handler)
      × (h.opt.include_graphql ≡ last_of graphql_of opts env.use_graphql)
      × (h.listener ≡ last_of listener_of opts listener)
      × (h.opt.root_middlewares
          ≡ middlewares_of opts
              (cors ∷ tracer env.jaeger_max_packet_size ∷ echo_logger env.debug_mode ∷ []))
unfolding setup_rest_server new_server env_options get_default_option
setup_rest_server_chosen env listener ms opts =
    ground (arith, apply_options-Chosen (env_options env listener ++ opts) (get_default_option env))
