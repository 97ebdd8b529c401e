-- ===== src/Rest/Echo.antt =====
-- echo-rest/route_wrapper.go and utils.go: what a handler finds in the context of its request.
pub mod Errors
pub mod Logger
pub mod Middlewares
pub mod Options
pub mod Server
use candi_plugin.Base.{◌≤◌, ◌≡◌, refl, List, [], ◌∷◌, Option, none, some, arith, bytes_eq, length}
use candi_plugin.Go.Text.{Bytes, codes}
use candi_plugin.Go.Map.{lookup, insert}
use candi_plugin.Go.Outcome.{Outcome, ok, panics, ◌>>=◌}
use candi_plugin.Candi.{Attributes}

-- http.Request: its path, and the map in its context under echoURLParamCtxKey, if there is one.
pub record Request : Type 0 where
  pub path : Bytes
  pub url_params : Option Attributes

-- echo.Context: the request, and the names and values of the route's parameters.
pub record Context : Type 0 where
  pub request : Request
  pub param_names : List Bytes
  pub param_values : List Bytes

-- setToContext, on the request's context: req.WithContext(ctx) answers a request that holds it.
unfoldable pub set_to_context : Attributes → Request → Request
set_to_context value req = record req { url_params = some value }

unfoldable pub get_route_context : Request → Attributes
get_route_context req = elim req.url_params [ none ↦ [] | some m ↦ m ]

-- URLParam: the empty string where there is none.
unfoldable pub url_param : Request → Bytes → Bytes
url_param req key = elim (lookup key (get_route_context req)) [ none ↦ [] | some v ↦ v ]

-- The loop of WrapHandler over ParamNames: a name without a value is an index out of range.
unfoldable pub param_map : List Bytes → List Bytes → Attributes → Outcome Attributes
param_map [] values m = ok m
param_map (name ∷ names) [] m = panics (codes "index out of range")
param_map (name ∷ names) (value ∷ values) m = param_map names values (insert name value m)

-- WrapHandler, for a handler that answers an A: the request that WithContext answers is dropped, and
-- the handler is given the context's own.
unfoldable pub wrap_handler {ℓ} : {A : Type ℓ} → (Request → A) → Context → Outcome A
wrap_handler h c = param_map c.param_names c.param_values [] >>= λ params.
    let dropped = set_to_context params c.request in ok (h c.request)

param_map_ok :
    (names values : List Bytes) (m : Attributes)
    → length names ≤ length values
    → (m' : Attributes) × (param_map names values m ≡ ok m')
unfolding param_map
param_map_ok [] values m h = (m, refl)
param_map_ok (name ∷ names) [] m h = absurd (omega arith)
param_map_ok (name ∷ names) (value ∷ values) m h =
    param_map_ok names values (insert name value m) (omega arith)

-- A handler under WrapHandler, on a request that came without URL parameters in its context, runs,
-- and URLParam answers it the empty string for each key, whatever the parameters of the route are.
pub wrap_handler-url_param :
    (c : Context) (key : Bytes)
    → length c.param_names ≤ length c.param_values
    → c.request.url_params ≡ none
    → wrap_handler (λ r. url_param r key) c ≡ ok []
unfolding wrap_handler url_param get_route_context lookup
wrap_handler-url_param c key fits bare =
    let (m, e) = param_map_ok c.param_names c.param_values [] fits in ground (arith, e, bare)
