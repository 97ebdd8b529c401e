-- ===== src/Rest/Servers/Setup.antt =====
-- The options of SetupRESTServer and of SetupFiberServer, and the servers made of them.
use candi_plugin.Base.{◌≡◌, refl, List, [], ◌∷◌, ◌++◌, Option, arith, map, if◌then◌else◌}
use candi_plugin.Go.Text.{Bytes, codes}
use candi_plugin.Rest.Echo.Options.{Env}
use candi_plugin.Rest.Echo.Options as Echo
use candi_plugin.Rest.Fiber.Options as Fiber
use candi_plugin.Rest.Echo.Server as EchoServer
use candi_plugin.Rest.Fiber.Server as FiberServer
use candi_plugin.Rest.Modules.{Module}
use candi_plugin.Rest.Servers.{
  Shared, to_echo, to_fiber, echo_graphql, fiber_graphql, includes, env_graphql,
}
use candi_plugin.Rest.Servers.Engines.{build_engine-echo, build_engine-fiber}

-- The two option records agree where both have a field, and p's GraphQL is at `path`.
pub record Agree (path : Bytes) (o : Echo.Options) (p : Fiber.Options) : Type 0 where
  pub port : o.http_port ≡ p.http_port
  pub root : o.root_path ≡ p.root_path
  pub debug : o.debug_mode ≡ p.debug_mode
  pub size : o.jaeger_max_packet_size ≡ p.jaeger_max_packet_size
  pub included : o.include_graphql ≡ p.include_graphql
  pub graphql : p.graphql_option.root_path ≡ path

apply_option-Agree :
    (path : Bytes) (opt : Shared) (o : Echo.Options) (p : Fiber.Options)
    → Agree path o p
    → Agree path (Echo.apply_option (to_echo opt) o) (Fiber.apply_option (to_fiber opt) p)
unfolding Echo.apply_option Fiber.apply_option
apply_option-Agree path opt o p a = ground arith

apply_options-Agree :
    (path : Bytes) (opts : List Shared) (o : Echo.Options) (p : Fiber.Options)
    → Agree path o p
    → Agree path
        (Echo.apply_options (map to_echo opts) o)
        (Fiber.apply_options (map to_fiber opts) p)
unfolding Echo.apply_options Fiber.apply_options
apply_options-Agree path [] o p a = a
apply_options-Agree path (opt ∷ opts) o p a =
    apply_options-Agree path opts _ _ (apply_option-Agree path opt o p a)

apply_options-includes :
    (opts : List Shared) (o : Echo.Options)
    → (Echo.apply_options (map to_echo opts) o).include_graphql ≡ includes opts o.include_graphql
unfolding Echo.apply_options Echo.apply_option
apply_options-includes [] o = refl
apply_options-includes (opt ∷ opts) o =
    ground (arith, apply_options-includes opts (Echo.apply_option (to_echo opt) o))

env_options-Agree :
    (env : Env) (listener : Option Bytes)
    → Agree
        (env_graphql env)
        (Echo.apply_options (Echo.env_options env listener) (Echo.get_default_option env))
        (Fiber.apply_options (Fiber.env_options env) Fiber.get_default_option)
unfolding Echo.apply_options Echo.apply_option Echo.env_options Echo.get_default_option
    Fiber.apply_options Fiber.apply_option Fiber.env_options Fiber.get_default_option
    Fiber.apply_graphqls Fiber.apply_graphql
env_options-Agree env listener = ground arith

apply_options-++ :
    (xs ys : List Echo.OptionFunc) (o : Echo.Options)
    → Echo.apply_options (xs ++ ys) o ≡ Echo.apply_options ys (Echo.apply_options xs o)
unfolding Echo.apply_options
apply_options-++ [] ys o = refl
apply_options-++ (x ∷ xs) ys o = apply_options-++ xs ys (Echo.apply_option x o)

apply_fiber_options-++ :
    (xs ys : List Fiber.OptionFunc) (p : Fiber.Options)
    → Fiber.apply_options (xs ++ ys) p ≡ Fiber.apply_options ys (Fiber.apply_options xs p)
unfolding Fiber.apply_options
apply_fiber_options-++ [] ys p = refl
apply_fiber_options-++ (x ∷ xs) ys p = apply_fiber_options-++ xs ys (Fiber.apply_option x p)

env_options-graphql :
    (env : Env) (listener : Option Bytes)
    → (Echo.apply_options
        (Echo.env_options env listener)
        (Echo.get_default_option env)).include_graphql
      ≡ env.use_graphql
unfolding Echo.apply_options Echo.apply_option Echo.env_options Echo.get_default_option
env_options-graphql env listener = ground arith

-- The servers that SetupRESTServer and SetupFiberServer make of the same environment and modules, with
-- the same of the five options that both have: the port, the root path, the debug mode and the packet
-- size agree; and where the last option, or else the environment, includes GraphQL, the Echo server
-- has it at /graphql below the root path, and the Fiber server there too if the environment uses
-- GraphQL, but at the root path itself if only an option of the caller includes it. Neither has it
-- elsewhere.
pub setup_servers-Agree :
    (env : Env) (listener : Option Bytes) (ms : List Module) (opts : List Shared)
    → let e = EchoServer.setup_rest_server env listener ms (map to_echo opts) in
      let f = FiberServer.setup_fiber_server env ms (map to_fiber opts) in
      let included = includes opts env.use_graphql in
      (e.opt.http_port ≡ f.opt.http_port)
      × (e.opt.root_path ≡ f.opt.root_path)
      × (e.opt.debug_mode ≡ f.opt.debug_mode)
      × (e.opt.jaeger_max_packet_size ≡ f.opt.jaeger_max_packet_size)
      × (echo_graphql e.server_engine
          ≡ (if included then (e.opt.root_path ++ codes "/graphql") ∷ [] else []))
      × (fiber_graphql f.server_engine
          ≡ (if included then (e.opt.root_path ++ env_graphql env) ∷ [] else []))
unfolding EchoServer.setup_rest_server EchoServer.new_server FiberServer.setup_fiber_server
    FiberServer.new_fiber_server
setup_servers-Agree env listener ms opts =
    let o = Echo.apply_options (Echo.env_options env listener) (Echo.get_default_option env) in
    let p = Fiber.apply_options (Fiber.env_options env) Fiber.get_default_option in
    let o' = Echo.apply_options (map to_echo opts) o in
    let p' = Fiber.apply_options (map to_fiber opts) p in
    rw
      (
        apply_options-++ (Echo.env_options env listener) (map to_echo opts)
            (Echo.get_default_option env),
        apply_fiber_options-++ (Fiber.env_options env) (map to_fiber opts) Fiber.get_default_option,
      )
      (ground (
        arith,
        apply_options-Agree (env_graphql env) opts o p (env_options-Agree env listener),
        apply_options-includes opts o,
        env_options-graphql env listener,
        build_engine-echo o' ms,
        build_engine-fiber p' ms,
      ))
