-- ===== src/Rest/Fiber/Wrapper.antt =====
-- fiber-rest/fiber_http_wrapper.go and URLParam of fiber-rest/utils.go: what a handler of net/http finds
-- in the context of its request under the Fiber server.
use candi_plugin.Base.{◌≡◌, [], ◌∷◌, Option, none, some, arith, bytes_eq}
use candi_plugin.Go.Text.{Bytes}
use candi_plugin.Go.Map.{lookup}
use candi_plugin.Candi.{Attributes, or_default}

-- The user value of the request's context under fiberURLParamCtxKey, if there is one. The request that
-- fasthttpadaptor makes has this context.
abbrev pub Request : Type 0
Request = Option Attributes

unfoldable pub get_route_context : Request → Attributes
get_route_context value = or_default value []

-- URLParam: the empty string where there is none.
unfoldable pub url_param : Request → Bytes → Bytes
url_param req key = or_default (lookup key (get_route_context req)) []

-- SetUserValue, where the route has parameters.
unfoldable pub set_params : Attributes → Request → Request
set_params [] req = req
set_params (p ∷ ps) req = some (p ∷ ps)

-- WrapHTTPHandlerFunc, for a handler that answers an A; `params` is what AllParams answers.
unfoldable pub wrap_http_handler_func {ℓ} : {A : Type ℓ} → (Request → A) → Attributes → Request → A
wrap_http_handler_func h params req = h (set_params params req)

-- A handler under WrapHTTPHandlerFunc, on a request that came without URL parameters in its context:
-- URLParam answers it the value of each parameter of the route, and the empty string for a key that is
-- none of them.
pub wrap_http_handler_func-url_param :
    (params : Attributes) (key : Bytes)
    → wrap_http_handler_func (λ r. url_param r key) params none ≡ or_default (lookup key params) []
unfolding wrap_http_handler_func set_params url_param get_route_context
wrap_http_handler_func-url_param params key = ground arith
