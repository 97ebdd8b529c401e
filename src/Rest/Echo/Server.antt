-- ===== src/Rest/Echo/Server.antt =====
-- echo-rest/rest_server.go: NewServer, Serve and Shutdown.
pub mod Setup
use candi_plugin.Base.{
  map, ℕ, Bool, true, false, List, [], ◌∷◌, ◌++◌, Option, none, some, if◌then◌else◌,
}
use candi_plugin.Go.Text.{Bytes, codes}
use candi_plugin.Go.Outcome.{Outcome, ok, panics}
use candi_plugin.Candi.{Error}
use candi_plugin.Rest.Routes.{echo_calls}
use candi_plugin.Rest.Modules.{Module, Mounted, mount_modules}
use candi_plugin.Rest.Echo.Options.{
  Middleware, RootHandler, ErrorHandler, Env, Options, OptionFunc, get_default_option,
  apply_options, env_options,
}

-- The handlers of the server's own routes. HTTPBasicAuth is put around that of /memstats.
pub data Endpoint : Type 0 where
  root_handler_of : RootHandler → Endpoint
  memstats_with_basic_auth : Endpoint
  serve_graphql : Endpoint
  serve_playground : Endpoint
  serve_voyager : Endpoint

-- What is done to the engine: an option called on it, a field written, a middleware or a route put in.
pub data Setting : Type 0 where
  engine_option_called : Bytes → Setting
  http_error_handler : ErrorHandler → Setting
  use_middlewares : List Middleware → Setting
  get_route : (path : Bytes) → Endpoint → Setting
  any_route : (path : Bytes) → Endpoint → Setting
  of_module : Mounted → Setting

-- restServer: the engine by what was done to it, in order; the listener is the shared one's, matched.
pub record RestServer : Type 0 where
  pub server_engine : List Setting
  pub listener : Option Bytes
  pub opt : Options

unfoldable pub call_engine_option : Option Bytes → List Setting
call_engine_option none = []
call_engine_option (some echo_func) = engine_option_called echo_func ∷ []

-- if server.opt.includeGraphQL
unfoldable pub inject_graphql : Bool → Bytes → List Setting
inject_graphql false root_path = []
inject_graphql true root_path =
    any_route (root_path ++ codes "/graphql") serve_graphql
    ∷ get_route (root_path ++ codes "/graphql/playground") serve_playground
    ∷ get_route (root_path ++ codes "/graphql/voyager") serve_voyager
    ∷ []

-- NewServer, with the options that apply_options made of the caller's.
unfoldable pub build_engine : Options → List Module → List Setting
build_engine o modules =
    call_engine_option o.engine_option
    ++ (http_error_handler o.error_handler
        ∷ use_middlewares o.root_middlewares
        ∷ get_route (codes "/") (root_handler_of o.root_handler)
        ∷ get_route (codes "/memstats") memstats_with_basic_auth
        ∷ (map of_module (mount_modules echo_calls o.root_path modules)
            ++ inject_graphql o.include_graphql o.root_path))

-- NewServer
unfoldable pub new_server : Env → List Module → List OptionFunc → RestServer
new_server env modules opts =
    let o = apply_options opts (get_default_option env) in
    record { server_engine = build_engine o modules; listener = o.shared_listener; opt = o }

-- SetupRESTServer
unfoldable pub setup_rest_server : Env → Option Bytes → List Module → List OptionFunc → RestServer
setup_rest_server env shared_listener modules opts =
    new_server env modules (env_options env shared_listener ++ opts)

-- The error of echo's Start: a *net.OpError, or another, as http.ErrServerClosed.
pub data StartError : Type 0 where
  op_error : Error → StartError
  other_error : Error → StartError

unfoldable pub panic_op_error : Option StartError → Outcome (Unit {0})
panic_op_error none = ok tt
panic_op_error (some (other_error err)) = ok tt
panic_op_error (some (op_error err)) = panics (codes "REST Server: Unexpected Error: " ++ err)

-- How Serve starts the engine: on the listener, or on the port.
unfoldable pub start_at : Option Bytes → ℕ → Option Bytes × Option ℕ
start_at (some listener) port = (some listener, none)
start_at none port = (none, some port)

-- Serve. `start` is what echo's Start answers, for the engine's Listener and the port of the address,
-- which is empty where there is none.
unfoldable pub serve :
    (Option Bytes × Option ℕ → Option StartError) → RestServer → Outcome (Unit {0})
serve start h = panic_op_error (start (start_at h.listener h.opt.http_port))

pub data Stop : Type 0 where
  engine_shutdown : Stop
  listener_closed : Bytes → Stop
  success_printed : Stop

unfoldable pub close_listener : Option Bytes → List Stop
close_listener none = []
close_listener (some listener) = listener_closed listener ∷ []

-- Shutdown
unfoldable pub shutdown : RestServer → List Stop
shutdown h = engine_shutdown ∷ (close_listener h.listener ++ success_printed ∷ [])
