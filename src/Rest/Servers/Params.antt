-- ===== src/Rest/Servers/Params.antt =====
-- What a handler of net/http finds of its route's parameters: WrapHandler of echo-rest/route_wrapper.go
-- beside WrapHTTPHandlerFunc of fiber-rest/fiber_http_wrapper.go.
use candi_plugin.Base.{none, map, bytes_eq}
use candi_plugin.Go.Text.{Bytes}
use candi_plugin.Candi.{Attributes}
use candi_plugin.Rest.Echo as Echo
use candi_plugin.Rest.Fiber.Wrapper as Fiber

-- The parameters of a route as Echo's context has them, for a request that came without any.
abbrev pub context_of : (path : Bytes) → Attributes → Echo.Context
context_of path params = record {
  request = record { path = path; url_params = none };
  param_names = map (λ p. p.0) params;
  param_values = map (λ p. p.1) params;
}
