-- ===== src/Rest/Echo/Options.antt =====
-- echo-rest/option.go, and the options of SetupRESTServer of echo-rest/utils.go: the options of the server, each known
-- by the call that makes it.
use candi_plugin.Base.{ℕ, Bool, true, false, List, [], ◌∷◌, ◌++◌, Option, none, if◌then◌else◌}
use candi_plugin.Go.Int.{ℤ, pos}
use candi_plugin.Go.Text.{Bytes}

pub data Middleware : Type 0 where
  cors : Middleware
  tracer : (max_log_size : ℤ) → Middleware
  echo_logger : (is_active : Bool) → Middleware
  custom : Bytes → Middleware

-- An http.Handler: wrapper.HTTPHandlerDefaultRoot, or one of the service.
pub data RootHandler : Type 0 where
  http_handler_default_root : RootHandler
  custom_handler : Bytes → RootHandler

pub data ErrorHandler : Type 0 where
  custom_http_error_handler : ErrorHandler
  other_error_handler : Bytes → ErrorHandler

-- env.BaseEnv(): the fields that are read.
pub record Env : Type 0 where
  pub http_port : ℕ
  pub http_root_path : Bytes
  pub use_graphql : Bool
  pub debug_mode : Bool
  pub jaeger_max_packet_size : ℤ
  pub graphql_disable_introspection : Bool

-- The graphqlserver.Option is candi's: it is known by the options that were applied to it.
pub data GraphqlOption : Type 0 where
  set_disable_introspection : Bool → GraphqlOption
  set_graphql_port : ℕ → GraphqlOption
  custom_graphql : Bytes → GraphqlOption

-- option; `shared_listener` and `engine_option` are nil or known by a name.
pub record Options : Type 0 where
  pub root_middlewares : List Middleware
  pub root_handler : RootHandler
  pub error_handler : ErrorHandler
  pub http_port : ℕ
  pub root_path : Bytes
  pub debug_mode : Bool
  pub include_graphql : Bool
  pub jaeger_max_packet_size : ℤ
  pub shared_listener : Option Bytes
  pub engine_option : Option Bytes
  pub graphql_option : List GraphqlOption

-- OptionFunc, by the function that returned it and that function's arguments.
pub data OptionFunc : Type 0 where
  set_http_port : ℕ → OptionFunc
  set_root_path : Bytes → OptionFunc
  set_root_http_handler : RootHandler → OptionFunc
  set_shared_listener : Option Bytes → OptionFunc
  set_debug_mode : Bool → OptionFunc
  set_include_graphql : Bool → OptionFunc
  set_jaeger_max_packet_size : ℤ → OptionFunc
  set_root_middlewares : List Middleware → OptionFunc
  add_root_middlewares : List Middleware → OptionFunc
  set_error_handler : ErrorHandler → OptionFunc
  set_echo_engine_option : Option Bytes → OptionFunc
  add_graphql_option : List GraphqlOption → OptionFunc

unfoldable pub get_default_option : Env → Options
get_default_option env = record {
  root_middlewares = cors ∷ tracer env.jaeger_max_packet_size ∷ echo_logger env.debug_mode ∷ [];
  root_handler = http_handler_default_root;
  error_handler = custom_http_error_handler;
  http_port = 8000;
  root_path = [];
  debug_mode = true;
  include_graphql = false;
  jaeger_max_packet_size = pos 0;
  shared_listener = none;
  engine_option = none;
  graphql_option = [];
}

-- A call of an OptionFunc.
unfoldable pub apply_option : OptionFunc → Options → Options
apply_option (set_http_port port) o = record o { http_port = port }
apply_option (set_root_path root_path) o = record o { root_path = root_path }
apply_option (set_root_http_handler root_handler) o = record o { root_handler = root_handler }
apply_option (set_shared_listener listener) o = record o { shared_listener = listener }
apply_option (set_debug_mode debug_mode) o = record o { debug_mode = debug_mode }
apply_option (set_include_graphql include_graphql) o = record o {
  include_graphql = include_graphql;
}
apply_option (set_jaeger_max_packet_size max) o = record o { jaeger_max_packet_size = max }
apply_option (set_root_middlewares middlewares) o = record o { root_middlewares = middlewares }
apply_option (add_root_middlewares middlewares) o = record o {
  root_middlewares = o.root_middlewares ++ middlewares;
}
apply_option (set_error_handler error_handler) o = record o { error_handler = error_handler }
apply_option (set_echo_engine_option echo_func) o = record o { engine_option = echo_func }
apply_option (add_graphql_option opts) o = record o { graphql_option = o.graphql_option ++ opts }

unfoldable pub apply_options : List OptionFunc → Options → Options
apply_options [] o = o
apply_options (opt ∷ opts) o = apply_options opts (apply_option opt o)

-- The options that SetupRESTServer puts in front of the caller's; the listener is that of the
-- service's configuration.
unfoldable pub env_options : Env → Option Bytes → List OptionFunc
env_options env shared_listener =
    (set_http_port env.http_port
      ∷ set_root_path env.http_root_path
      ∷ set_include_graphql env.use_graphql
      ∷ set_shared_listener shared_listener
      ∷ set_debug_mode env.debug_mode
      ∷ set_jaeger_max_packet_size env.jaeger_max_packet_size
      ∷ [])
    ++ (if env.use_graphql
        then add_graphql_option (
            set_disable_introspection env.graphql_disable_introspection
            ∷ set_graphql_port env.http_port
            ∷ [])
          ∷ []
        else [])
