-- ===== src/Rest/Modules.antt =====
-- The loop over the service's modules of NewServer of echo-rest/rest_server.go and NewFiberServer of
-- fiber-rest/fiber_rest_server.go, for either router.
use candi_plugin.Base.{List, [], ◌∷◌, ◌++◌, Option, none, some, map}
use candi_plugin.Go.Text.{Bytes}
use candi_plugin.Rest.Routes.{Group, Calls, Told}

-- A module of the service: its RESTHandler, by the calls that Mount makes, and its ServerHandler for
-- the server's type, by a name; each may be nil.
pub record Module : Type 0 where
  pub rest_handler : Option Calls
  pub server_handler : Option Bytes

-- What an engine is told of a module: a call of its Mount through the router, or MountHandlers on the
-- root group itself.
pub data Mounted : Type 0 where
  mounted_call : Told → Mounted
  mount_handlers : (prefix name : Bytes) → Mounted

-- `router` is echo_calls or fiber_calls.
unfoldable pub mount_rest : (Group → Calls → List Told) → Bytes → Option Calls → List Mounted
mount_rest router root_path none = []
mount_rest router root_path (some cs) = map mounted_call (router (root_path ∷ []) cs)

unfoldable pub mount_server : Bytes → Option Bytes → List Mounted
mount_server root_path none = []
mount_server root_path (some h) = mount_handlers root_path h ∷ []

unfoldable pub mount_modules : (Group → Calls → List Told) → Bytes → List Module → List Mounted
mount_modules router root_path [] = []
mount_modules router root_path (m ∷ ms) =
    mount_rest router root_path m.rest_handler
    ++ (mount_server root_path m.server_handler ++ mount_modules router root_path ms)
