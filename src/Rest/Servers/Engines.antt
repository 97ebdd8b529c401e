-- ===== src/Rest/Servers/Engines.antt =====
-- The routes of GraphQL among what NewServer of echo-rest and NewFiberServer of fiber-rest do to their
-- engines.
use candi_plugin.Base.{◌≡◌, refl, List, [], ◌∷◌, ◌++◌, map, arith, if◌then◌else◌}
use candi_plugin.Go.Text.{codes}
use candi_plugin.Rest.Modules.{Module, Mounted, mount_modules}
use candi_plugin.Rest.Routes.{echo_calls, fiber_calls}
use candi_plugin.Rest.Echo.Options as Echo
use candi_plugin.Rest.Fiber.Options as Fiber
use candi_plugin.Rest.Echo.Server as EchoServer
use candi_plugin.Rest.Fiber.Server as FiberServer
use candi_plugin.Rest.Servers.{echo_graphql, fiber_graphql}

-- What a module mounts is not the server's own GraphQL.
echo_graphql-mounted :
    (ms : List Mounted) (ss : List EchoServer.Setting)
    → echo_graphql (map EchoServer.of_module ms ++ ss) ≡ echo_graphql ss
echo_graphql-mounted [] ss = refl
echo_graphql-mounted (m ∷ ms) ss = echo_graphql-mounted ms ss

fiber_graphql-mounted :
    (ms : List Mounted) (ss : List FiberServer.Setting)
    → fiber_graphql (map FiberServer.of_module ms ++ ss) ≡ fiber_graphql ss
fiber_graphql-mounted [] ss = refl
fiber_graphql-mounted (m ∷ ms) ss = fiber_graphql-mounted ms ss

pub build_engine-echo :
    (o : Echo.Options) (ms : List Module)
    → echo_graphql (EchoServer.build_engine o ms)
      ≡ (if o.include_graphql then (o.root_path ++ codes "/graphql") ∷ [] else [])
unfolding EchoServer.build_engine EchoServer.inject_graphql EchoServer.call_engine_option
build_engine-echo o ms = ground (
  arith,
  echo_graphql-mounted (mount_modules echo_calls o.root_path ms)
      (EchoServer.inject_graphql o.include_graphql o.root_path),
)

pub build_engine-fiber :
    (o : Fiber.Options) (ms : List Module)
    → fiber_graphql (FiberServer.build_engine o ms)
      ≡ (if o.include_graphql then (o.root_path ++ o.graphql_option.root_path) ∷ [] else [])
unfolding FiberServer.build_engine FiberServer.inject_graphql
build_engine-fiber o ms = ground (
  arith,
  fiber_graphql-mounted (mount_modules fiber_calls o.root_path ms)
      (FiberServer.inject_graphql o.include_graphql o.root_path o.graphql_option.root_path),
)
