-- ===== src/Rest/Routes.antt =====
-- The routes that the handlers of the service's modules register: interfaces.RESTRouter of candi, as
-- the calls that a module's Mount makes, and the two routers behind it, of echo-rest/route_wrapper.go
-- and fiber-rest/route_wrapper.go. The engines, Echo and Fiber, are known by what they are told.
pub mod Mounting
use candi_plugin.Base.{Bool, List, [], ◌∷◌, ◌++◌, Option, none, some, map, if◌then◌else◌, nat_eq}
use candi_plugin.Go.Text.{Bytes, codes}

-- HandleFunc, which takes any method, and the nine others.
pub data Method : Type 0 where
  any : Method
  connect : Method
  delete : Method
  get : Method
  head : Method
  options : Method
  patch : Method
  post : Method
  put : Method
  trace : Method

-- A call of a RESTRouter: one of the ten that register a route, Use, and Group with the calls on the
-- group that it returns. Middlewares and handlers are known by names.
mutual
  pub data Call : Type 0 where
    handle : Method → (pattern handler : Bytes) → (middlewares : List Bytes) → Call
    use_all : List Bytes → Call
    group : (pattern : Bytes) → (middlewares : List Bytes) → Calls → Call

  pub data Calls : Type 0 where
    stop : Calls
    call : Call → Calls → Calls

-- A group of the engine, by the patterns from the engine's root to it.
abbrev pub Group : Type 0
Group = List Bytes

-- What a route runs: a middleware or a handler of net/http, wrapped for the engine.
pub data Link : Type 0 where
  middleware : Bytes → Link
  handler : Bytes → Link

-- What the engine is told: a group's Use of a middleware, and a route, with what it runs in order.
pub data Told : Type 0 where
  group_use : Group → Bytes → Told
  add_route : Group → Method → (path : Bytes) → List Link → Told

unfoldable pub use_each : Group → List Bytes → List Told
use_each g [] = []
use_each g (mw ∷ mws) = group_use g mw ∷ use_each g mws

-- strings.TrimSuffix(pattern, "/")
unfoldable pub trim_suffix_slash : Bytes → Bytes
trim_suffix_slash [] = []
trim_suffix_slash (c ∷ s) = elim s [
  | [] ↦ if nat_eq c b'/' then [] else c ∷ []
  | d ∷ r ↦ c ∷ trim_suffix_slash s
]

-- transformMiddlewares
unfoldable pub transform_middlewares : List Bytes → List Link
transform_middlewares [] = []
transform_middlewares (mw ∷ mws) = middleware mw ∷ transform_middlewares mws

-- The routeWrapper of echo-rest. A route's middlewares are not handed on: transformMiddlewares is
-- called with none.
unfoldable mutual
  pub echo_call : Group → Call → List Told
  echo_call g (handle method pattern h mws) =
      add_route g method (trim_suffix_slash pattern) (transform_middlewares [] ++ handler h ∷ [])
      ∷ []
  echo_call g (use_all mws) = use_each g mws
  echo_call g (group pattern mws cs) =
      use_each (g ++ pattern ∷ []) mws ++ echo_calls (g ++ pattern ∷ []) cs

  pub echo_calls : Group → Calls → List Told
  echo_calls g stop = []
  echo_calls g (call c cs) = echo_call g c ++ echo_calls g cs

-- WithChainingMiddlewares of fiber-rest/middleware.go.
unfoldable pub with_chaining_middlewares : Bytes → List Bytes → List Link
with_chaining_middlewares h [] = handler h ∷ []
with_chaining_middlewares h (mw ∷ mws) = middleware mw ∷ with_chaining_middlewares h mws

-- The routeWrapper of fiber-rest.
unfoldable mutual
  pub fiber_call : Group → Call → List Told
  fiber_call g (handle method pattern h mws) =
      add_route g method pattern (with_chaining_middlewares h mws) ∷ []
  fiber_call g (use_all mws) = use_each g mws
  fiber_call g (group pattern mws cs) =
      use_each (g ++ pattern ∷ []) mws ++ fiber_calls (g ++ pattern ∷ []) cs

  pub fiber_calls : Group → Calls → List Told
  fiber_calls g stop = []
  fiber_calls g (call c cs) = fiber_call g c ++ fiber_calls g cs
