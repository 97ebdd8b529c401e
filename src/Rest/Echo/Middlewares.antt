-- ===== src/Rest/Echo/Middlewares.antt =====
-- EchoWrapMiddleware of echo-rest/middleware.go: a middleware of net/http around a handler of Echo.
use candi_plugin.Base.{Option, none}
use candi_plugin.Go.Text.{Bytes}
use candi_plugin.Candi.{Error}
use candi_plugin.Rest.Echo.{Request}

-- What the code writes: the request and the writer of the echo.Context, the variable err that the
-- handler handed to the middleware captures, and what the handlers do besides, as a W. A writer is known
-- by a name.
pub record Call (W : Type 0) : Type 0 where
  pub request : Request
  pub writer : Bytes
  pub err : Option Error
  pub world : W

-- An echo.HandlerFunc, on the context: its error, and what it wrote.
abbrev pub EchoHandler : Type 0 → Type 0
EchoHandler W = Call W → Option Error × Call W

-- An http.Handler's ServeHTTP: with a writer and a request, on what the code writes.
abbrev pub HttpHandler : Type 0 → Type 0
HttpHandler W = Bytes → Request → Call W → Call W

unfoldable pub keep_error : {W : Type 0} → Option Error × Call W → Call W
keep_error (err, c) = record c { err = err }

-- The http.HandlerFunc that the middleware gets.
unfoldable pub call_next : {W : Type 0} → EchoHandler W → HttpHandler W
call_next next w r c = keep_error (next (record c { request = r; writer = w }))

-- EchoWrapMiddleware
unfoldable pub echo_wrap_middleware :
    {W : Type 0} → (HttpHandler W → HttpHandler W) → EchoHandler W → EchoHandler W
echo_wrap_middleware m next c =
    let c' = m (call_next next) c.writer c.request (record c { err = none }) in (c'.err, c')
