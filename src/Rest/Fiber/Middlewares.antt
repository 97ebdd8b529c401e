-- ===== src/Rest/Fiber/Middlewares.antt =====
-- fiber-rest/middleware.go: JaegerTracingMiddleware and RecoverMiddleware, which the default options put
-- around every route of the root group.
pub mod Tracing
use candi_plugin.Base.{
  ℕ, zero, suc, ◌+◌, ◌≡◌, refl, ap, Bool, true, false, ◌||◌, not, List, [], ◌∷◌, ◌++◌, Option, none,
  some, arith, ltb, ◌==◌, bytes_eq, if◌then◌else◌,
}
use candi_plugin.Go.Int.{ℤ, pos, negsuc}
use candi_plugin.Go.Text.{Bytes, codes}
use candi_plugin.Go.Outcome.{Outcome, ok, panics}
use candi_plugin.Go.Act.{Act, ◌>>=◌, ◌>>◌, return, emit, ask, deferred, panic}
use candi_plugin.Candi.{Error, Attributes}
use candi_plugin.Rest.Fiber.{HttpResponse, new_http_response}

-- What the middlewares do to the tracer, and what is done to the response: `respond` is a response
-- written to it, by its code.
pub data Event : Type 0 where
  start_trace : Attributes → Event
  tag : (key value : Bytes) → Event
  tag_status : ℕ → Event
  log_text : (key value : Bytes) → Event
  log_size : (key : Bytes) → ℕ → Event
  finish : Event
  copy_context : Event
  respond : HttpResponse → Event
  handled : Bytes → Event

-- The request, as the middleware reads it; `resource` is the route's method and the path.
pub record Request : Type 0 where
  pub path : Bytes
  pub method : Bytes
  pub headers : Attributes
  pub raw_headers : Bytes
  pub body : Bytes
  pub original_url : Bytes

-- The status of the response: fasthttp's is 200 until another is written.
abbrev pub status_of : List Event → ℕ
status_of [] = 200
status_of (respond r ∷ log) = r.code
status_of (_ ∷ log) = status_of log

-- c.Next(): the middlewares behind, and the route's handler.
abbrev pub Next : Type 0
Next = Act Event (Option Error)

-- n < max, for an int that may be negative.
unfoldable pub lt_int : ℕ → ℤ → Bool
lt_int n (pos max) = ltb n max
lt_int n (negsuc max) = false

unfoldable pub log_body : (key size_key : Bytes) → ℕ → ℤ → Bytes → Act Event (Unit {0})
log_body key size_key n max body =
    if lt_int n max then emit (log_text key body) else emit (log_size size_key n)

unfoldable pub tag_headers : Attributes → Act Event (Unit {0})
tag_headers [] = return tt
tag_headers (h ∷ hs) = do emit (tag (codes "http.headers." ++ h.0) h.1); tag_headers hs

abbrev pub size : Bytes → ℕ
size [] = zero
size (c ∷ s) = suc (size s)

-- candihelper.StringInSlice(c.Path(), []string{"/", "/graphql"})
unfoldable pub is_excluded : Bytes → Bool
is_excluded path = path == codes "/" || path == codes "/graphql"

-- The tags and logs of the request. `version` is fiber.Version.
unfoldable pub trace_request : Bytes → ℤ → Request → Act Event (Unit {0})
trace_request version max req = do
  emit (tag (codes "resource.name") (req.method ++ (codes " " ++ req.path)))
  log_body (codes "request.body") (codes "request.body.size") (size req.body) max req.body
  emit (tag (codes "http.engine") (codes "fiber (fasthttp) version " ++ version))
  emit (tag (codes "http.method") req.method)
  emit (tag (codes "http.url_path") req.path)
  tag_headers req.headers
  emit (log_text (codes "http.full_url") req.original_url)
  emit (log_text (codes "http.request_header") req.raw_headers)
  emit copy_context

-- What is left of a call whose deferred function does not recover.
unfoldable pub hand_on : Outcome (Option Error) → Act Event (Option Error)
hand_on (ok err) = return err
hand_on (panics v) = panic v

-- The deferred function: the response is read as it is then. Its header and body are `world`'s.
unfoldable pub trace_response : ℤ → (List Event → Bytes × Bytes) → Outcome (Option Error) → Next
trace_response max world outcome = do
  seen ← ask world
  emit (log_text (codes "http.response_header") seen.0)
  status ← ask status_of
  emit (tag_status status)
  log_body (codes "response.body") (codes "response.body.size") (size seen.1) max seen.1
  emit finish
  hand_on outcome

-- JaegerTracingMiddleware
unfoldable pub jaeger_tracing_middleware :
    Bytes → ℤ → (List Event → Bytes × Bytes) → Request → Next → Next
jaeger_tracing_middleware version max world req next = if is_excluded req.path then next else (do
  emit (start_trace req.headers)
  deferred (do trace_request version max req; next) (trace_response max world))

-- The deferred function of RecoverMiddleware: `send` is the error of writing the response.
unfoldable pub recover_error : (List Event → Option Error) → Outcome (Option Error) → Next
recover_error send (ok err) = return err
recover_error send (panics v) = do
  emit (respond (new_http_response 500 (codes "panic: " ++ v) []))
  ask send

-- RecoverMiddleware
unfoldable pub recover_middleware : (List Event → Option Error) → Next → Next
recover_middleware send next = deferred next (recover_error send)

-- The statuses that traces were tagged with, the newest first.
abbrev pub traced : List Event → List ℕ
traced [] = []
traced (tag_status n ∷ log) = n ∷ traced log
traced (_ ∷ log) = traced log

abbrev pub finishes : List Event → ℕ
finishes [] = 0
finishes (finish ∷ log) = 1 + finishes log
finishes (_ ∷ log) = finishes log

abbrev pub has_panicked : Outcome (Option Error) → Bool
has_panicked (ok err) = false
has_panicked (panics v) = true
