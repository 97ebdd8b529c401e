-- ===== src/Rest/Fiber/Options.antt =====
-- fiber-rest/option.go, and the options of SetupFiberServer of fiber-rest/fiber_rest_server.go, each known
-- by the call that makes it.
use candi_plugin.Base.{ℕ, Bool, true, false, List, [], ◌∷◌, ◌++◌, Option, some, if◌then◌else◌}
use candi_plugin.Go.Int.{ℤ, pos}
use candi_plugin.Go.Text.{Bytes, codes}
use candi_plugin.Candi.{Error, or_default}
use candi_plugin.Rest.Echo.Options.{Env}

pub data Middleware : Type 0 where
  recover : Middleware
  jaeger_tracing : Middleware
  fiber_logger : Middleware
  custom : Bytes → Middleware

pub data RootHandler : Type 0 where
  http_handler_default_root : RootHandler
  custom_handler : Bytes → RootHandler

pub data ErrorHandler : Type 0 where
  default_handler : ErrorHandler
  other_handler : Bytes → ErrorHandler

-- fiber.Config: its ErrorHandler, which may be nil, and a name for the rest.
pub record FiberConfig : Type 0 where
  pub error_handler : Option ErrorHandler
  pub rest : Bytes

-- An option of graphqlserver, by what it makes of the option's RootPath.
pub data GraphqlOption : Type 0 where
  set_disable_introspection : Bool → GraphqlOption
  set_graphql_port : ℕ → GraphqlOption
  custom_graphql : (Bytes → Bytes) → GraphqlOption

-- graphqlserver.Option: its RootPath, and the options that were applied.
pub record Graphql : Type 0 where
  pub root_path : Bytes
  pub applied : List GraphqlOption

-- option; cors.Config is known by a name.
pub record Options : Type 0 where
  pub fiber_config : FiberConfig
  pub cors_config : Bytes
  pub root_middlewares : List Middleware
  pub root_handler : RootHandler
  pub http_port : ℕ
  pub root_path : Bytes
  pub debug_mode : Bool
  pub jaeger_max_packet_size : ℤ
  pub include_graphql : Bool
  pub graphql_option : Graphql

-- OptionFunc, by the function that returned it and that function's arguments.
pub data OptionFunc : Type 0 where
  set_http_port : ℕ → OptionFunc
  set_root_path : Bytes → OptionFunc
  set_root_http_handler : RootHandler → OptionFunc
  set_debug_mode : Bool → OptionFunc
  set_root_middlewares : List Middleware → OptionFunc
  add_root_middlewares : Middleware → OptionFunc
  set_fiber_config : FiberConfig → OptionFunc
  set_cors_config : Bytes → OptionFunc
  set_jaeger_max_packet_size : ℤ → OptionFunc
  set_include_graphql : Bool → OptionFunc
  add_graphql_option : List GraphqlOption → OptionFunc

-- defaultErrHandler: the code and the message of the response, for the error's text and the code that
-- errors.As finds in its chain.
unfoldable pub default_err_handler : Option ℕ → Error → ℕ × Error
default_err_handler found err = (or_default found 500, err)

unfoldable pub get_default_option : Options
get_default_option = record {
  fiber_config = record { error_handler = some default_handler; rest = [] };
  cors_config = [];
  root_middlewares = recover ∷ jaeger_tracing ∷ fiber_logger ∷ [];
  root_handler = http_handler_default_root;
  http_port = 8000;
  root_path = [];
  debug_mode = true;
  jaeger_max_packet_size = pos 0;
  include_graphql = false;
  graphql_option = record { root_path = []; applied = [] };
}

unfoldable pub or_default_handler : FiberConfig → FiberConfig
or_default_handler cfg = record cfg {
  error_handler = some (or_default cfg.error_handler default_handler);
}

unfoldable pub apply_graphql : GraphqlOption → Graphql → Graphql
apply_graphql (set_disable_introspection b) g = record g {
  applied = g.applied ++ (set_disable_introspection b ∷ []);
}
apply_graphql (set_graphql_port port) g = record g {
  applied = g.applied ++ (set_graphql_port port ∷ []);
}
apply_graphql (custom_graphql f) g = record {
  root_path = f g.root_path;
  applied = g.applied ++ (custom_graphql f ∷ []);
}

unfoldable pub apply_graphqls : List GraphqlOption → Graphql → Graphql
apply_graphqls [] g = g
apply_graphqls (opt ∷ opts) g = apply_graphqls opts (apply_graphql opt g)

-- A call of an OptionFunc.
unfoldable pub apply_option : OptionFunc → Options → Options
apply_option (set_http_port port) o = record o { http_port = port }
apply_option (set_root_path root_path) o = record o { root_path = root_path }
apply_option (set_root_http_handler root_handler) o = record o { root_handler = root_handler }
apply_option (set_debug_mode debug_mode) o = record o { debug_mode = debug_mode }
apply_option (set_root_middlewares middlewares) o = record o { root_middlewares = middlewares }
apply_option (add_root_middlewares middleware) o = record o {
  root_middlewares = o.root_middlewares ++ (middleware ∷ []);
}
apply_option (set_fiber_config cfg) o = record o { fiber_config = or_default_handler cfg }
apply_option (set_cors_config cfg) o = record o { cors_config = cfg }
apply_option (set_jaeger_max_packet_size max) o = record o { jaeger_max_packet_size = max }
apply_option (set_include_graphql include_graphql) o = record o {
  include_graphql = include_graphql;
}
apply_option (add_graphql_option opts) o = record o {
  graphql_option = apply_graphqls opts (record o.graphql_option { root_path = codes "/graphql" });
}

unfoldable pub apply_options : List OptionFunc → Options → Options
apply_options [] o = o
apply_options (opt ∷ opts) o = apply_options opts (apply_option opt o)

-- The options that SetupFiberServer puts in front of the caller's.
unfoldable pub env_options : Env → List OptionFunc
env_options env =
    (set_http_port env.http_port
      ∷ set_root_path env.http_root_path
      ∷ set_include_graphql env.use_graphql
      ∷ set_debug_mode env.debug_mode
      ∷ set_jaeger_max_packet_size env.jaeger_max_packet_size
      ∷ [])
    ++ (if env.use_graphql
        then add_graphql_option (
            set_disable_introspection env.graphql_disable_introspection
            ∷ set_graphql_port env.http_port
            ∷ [])
          ∷ []
        else [])
