-- ===== src/Rest/Servers.antt =====
-- SetupRESTServer of echo-rest/utils.go beside SetupFiberServer of fiber-rest/fiber_rest_server.go, for
-- the same service, environment and options.
mod Engines
pub mod Params
pub mod Setup
use candi_plugin.Base.{
  ℕ, ◌≡◌, refl, ap, ◌∙◌, Bool, true, false, List, [], ◌∷◌, ◌++◌, Option, none, some, arith, map,
  if◌then◌else◌,
}
use candi_plugin.Go.Int.{ℤ}
use candi_plugin.Go.Text.{Bytes, codes}
use candi_plugin.Rest.Routes.{Calls, Told, echo_calls, fiber_calls}
use candi_plugin.Rest.Echo.Options.{Env}
use candi_plugin.Rest.Echo.Options as Echo
use candi_plugin.Rest.Fiber.Options as Fiber
use candi_plugin.Rest.Echo.Server as EchoServer
use candi_plugin.Rest.Fiber.Server as FiberServer

-- The options that both packages have under the same name and with the same argument.
pub data Shared : Type 0 where
  set_http_port : ℕ → Shared
  set_root_path : Bytes → Shared
  set_debug_mode : Bool → Shared
  set_jaeger_max_packet_size : ℤ → Shared
  set_include_graphql : Bool → Shared

abbrev pub to_echo : Shared → Echo.OptionFunc
to_echo (set_http_port port) = Echo.set_http_port port
to_echo (set_root_path path) = Echo.set_root_path path
to_echo (set_debug_mode b) = Echo.set_debug_mode b
to_echo (set_jaeger_max_packet_size max) = Echo.set_jaeger_max_packet_size max
to_echo (set_include_graphql b) = Echo.set_include_graphql b

abbrev pub to_fiber : Shared → Fiber.OptionFunc
to_fiber (set_http_port port) = Fiber.set_http_port port
to_fiber (set_root_path path) = Fiber.set_root_path path
to_fiber (set_debug_mode b) = Fiber.set_debug_mode b
to_fiber (set_jaeger_max_packet_size max) = Fiber.set_jaeger_max_packet_size max
to_fiber (set_include_graphql b) = Fiber.set_include_graphql b

-- The paths at which an engine has GraphQL.
abbrev pub echo_graphql : List EchoServer.Setting → List Bytes
echo_graphql [] = []
echo_graphql (EchoServer.any_route path EchoServer.serve_graphql ∷ ss) = path ∷ echo_graphql ss
echo_graphql (_ ∷ ss) = echo_graphql ss

abbrev pub fiber_graphql : List FiberServer.Setting → List Bytes
fiber_graphql [] = []
fiber_graphql (FiberServer.all_route prefix path (FiberServer.serve_graphql _) ∷ ss) =
    (prefix ++ path) ∷ fiber_graphql ss
fiber_graphql (_ ∷ ss) = fiber_graphql ss

-- The last of the options for GraphQL, before b where there is none.
abbrev pub includes : List Shared → Bool → Bool
includes [] b = b
includes (set_include_graphql b' ∷ opts) b = includes opts b'
includes (_ ∷ opts) b = includes opts b

-- The root path of GraphQL that SetupFiberServer's own options leave.
abbrev pub env_graphql : Env → Bytes
env_graphql env = if env.use_graphql then codes "/graphql" else []
