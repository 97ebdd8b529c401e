-- ===== src/Rest/Fiber/Server.antt =====
-- fiber-rest/fiber_rest_server.go: NewFiberServer, SetupFiberServer, Serve and Shutdown.
use candi_plugin.Base.{map, ℕ, Bool, true, false, List, [], ◌∷◌, ◌++◌, Option, none, some}
use candi_plugin.Go.Text.{Bytes, codes, trim_slash}
use candi_plugin.Go.Outcome.{Outcome, ok, panics}
use candi_plugin.Candi.{Error}
use candi_plugin.Rest.Routes.{fiber_calls}
use candi_plugin.Rest.Modules.{Module, Mounted, mount_modules}
use candi_plugin.Rest.Echo.Options.{Env}
use candi_plugin.Rest.Fiber.Options.{
  Middleware, RootHandler, FiberConfig, Options, OptionFunc, get_default_option, apply_options,
  env_options,
}

-- The handlers of the server's own routes; those of GraphQL are made for a root path.
pub data Endpoint : Type 0 where
  root_handler_of : RootHandler → Endpoint
  serve_graphql : (root_path : Bytes) → Endpoint
  serve_playground : (root_path : Bytes) → Endpoint
  serve_voyager : (root_path : Bytes) → Endpoint

-- What is done to the engine; a route of the group has the group's prefix in front of its path.
pub data Setting : Type 0 where
  new_app : FiberConfig → Setting
  get_route : (prefix path : Bytes) → Endpoint → Setting
  all_route : (prefix path : Bytes) → Endpoint → Setting
  use_cors : Bytes → Setting
  new_group : (prefix : Bytes) → List Middleware → Setting
  of_module : Mounted → Setting

-- fiberREST
pub record FiberRest : Type 0 where
  pub server_engine : List Setting
  pub opt : Options

-- if server.opt.includeGraphQL: strings.Trim(rootPath, "/") + gqlRootPath for the handlers, and
-- gqlRootPath for the routes of the group.
unfoldable pub inject_graphql : Bool → Bytes → Bytes → List Setting
inject_graphql false root_path gql_root_path = []
inject_graphql true root_path gql_root_path =
    let path = trim_slash root_path ++ gql_root_path in
    all_route root_path gql_root_path (serve_graphql path)
    ∷ get_route root_path (gql_root_path ++ codes "/playground") (serve_playground path)
    ∷ get_route root_path (gql_root_path ++ codes "/voyager") (serve_voyager path)
    ∷ []

unfoldable pub build_engine : Options → List Module → List Setting
build_engine o modules =
    new_app o.fiber_config
    ∷ get_route [] (codes "/") (root_handler_of o.root_handler)
    ∷ use_cors o.cors_config
    ∷ new_group o.root_path o.root_middlewares
    ∷ (map of_module (mount_modules fiber_calls o.root_path modules)
        ++ inject_graphql o.include_graphql o.root_path o.graphql_option.root_path)

-- NewFiberServer
unfoldable pub new_fiber_server : List Module → List OptionFunc → FiberRest
new_fiber_server modules opts =
    let o = apply_options opts get_default_option in
    record { server_engine = build_engine o modules; opt = o }

-- SetupFiberServer
unfoldable pub setup_fiber_server : Env → List Module → List OptionFunc → FiberRest
setup_fiber_server env modules opts = new_fiber_server modules (env_options env ++ opts)

unfoldable pub panic_error : Option Error → Outcome (Unit {0})
panic_error none = ok tt
panic_error (some err) = panics err

-- Serve: `listen` is what fiber's Listen answers for the port of the address.
unfoldable pub serve : (ℕ → Option Error) → FiberRest → Outcome (Unit {0})
serve listen s = panic_error (listen s.opt.http_port)
