-- ===== src/Rest/Fiber/Middlewares/Tracing.antt =====
-- The trace of a request of the Fiber server, with RecoverMiddleware around JaegerTracingMiddleware, as
-- getDefaultOption of fiber-rest/option.go has them.
use candi_plugin.Base.{
  ℕ, ◌+◌, ◌≡◌, refl, false, List, [], ◌∷◌, ◌++◌, Option, arith, bytes_eq, if◌then◌else◌,
}
use candi_plugin.Go.Int.{ℤ}
use candi_plugin.Go.Text.{Bytes, codes}
use candi_plugin.Go.Outcome.{Outcome, ok, panics}
use candi_plugin.Go.Act.{Act, after, cleanup}
use candi_plugin.Candi.{Error, Attributes}
use candi_plugin.Rest.Fiber.{new_http_response, fill}
use candi_plugin.Rest.Fiber.Middlewares.{
  Event, start_trace, tag, Request, status_of, traced, finishes, has_panicked, Next, log_body,
  tag_headers, trace_request, trace_response, hand_on, is_excluded, jaeger_tracing_middleware,
  recover_error, recover_middleware,
}

-- An action that neither panics nor writes a response, and that tags no status and ends no trace.
abbrev Quiet : List Event → Outcome (Unit {0}) × List Event → Type 0
Quiet log r =
    (r.0 ≡ ok tt)
    × (status_of r.1 ≡ status_of log)
    × (traced r.1 ≡ traced log)
    × (finishes r.1 ≡ finishes log)

tag_headers-Quiet : (hs : Attributes) (log : List Event) → Quiet log (tag_headers hs log)
unfolding tag_headers
tag_headers-Quiet [] log = (refl, refl, refl, refl)
tag_headers-Quiet (h ∷ hs) log =
    ground (arith, tag_headers-Quiet hs (tag (codes "http.headers." ++ h.0) h.1 ∷ log))

log_body-Quiet :
    (key size_key : Bytes) (n : ℕ) (max : ℤ) (body : Bytes) (log : List Event)
    → Quiet log (log_body key size_key n max body log)
unfolding log_body
log_body-Quiet key size_key n max body log = ground arith

after-Quiet :
    (log : List Event) (r : Outcome (Unit {0}) × List Event) (rest : Act Event (Unit {0}))
    → Quiet log r
    → ((log' : List Event) → Quiet log' (rest log'))
    → Quiet log (after r (λ _. rest))
after-Quiet log (ok a, log') rest q quiet = ground (arith, quiet log')
after-Quiet log (panics v, log') rest q quiet = ground arith

-- The tags and logs of the request.
trace_request-Quiet :
    (version : Bytes) (max : ℤ) (req : Request) (log : List Event)
    → Quiet log (trace_request version max req log)
unfolding trace_request
trace_request-Quiet version max req log =
    after-Quiet log _ _ (log_body-Quiet _ _ _ max req.body _) (λ log'.
      after-Quiet log' _ _ (tag_headers-Quiet req.headers _) (λ log''. (refl, refl, refl, refl)))

-- The log when the request's tags and logs are written, and c.Next() is called.
abbrev pub entered : Bytes → ℤ → Request → List Event → List Event
entered version max req log = (trace_request version max req (start_trace req.headers ∷ log)).1

-- The deferred functions of both middlewares, behind a call that has ended as `r` says.
closing :
    (send : List Event → Option Error) (max : ℤ) (world : List Event → Bytes × Bytes)
    (r : Outcome (Option Error) × List Event)
    → let out = recover_middleware send (λ _. trace_response max world r.0 r.1) [] in
      (has_panicked out.0 ≡ false)
      × (traced out.1 ≡ status_of r.1 ∷ traced r.1)
      × (finishes out.1 ≡ 1 + finishes r.1)
      × (status_of out.1 ≡ (if has_panicked r.0 then 500 else status_of r.1))
unfolding recover_middleware recover_error trace_response hand_on log_body new_http_response fill
closing send max world (ok err, log) = ground arith
closing send max world (panics v, log) = ground arith

behind-lem :
    (next : Next) (rest : Outcome (Option Error) → Next) (r : Outcome (Unit {0}) × List Event)
    → r.0 ≡ ok tt
    → cleanup (after r (λ _. next)) rest ≡ rest (next r.1).0 (next r.1).1
behind-lem next rest (ok a, log) e = refl
behind-lem next rest (panics v, log) e = cc

-- A request for a path other than / and /graphql, with RecoverMiddleware around JaegerTracingMiddleware
-- and anything behind them: the trace is started before, and whether the code behind returns or
-- panics, one trace is finished, the call returns, and the trace is tagged with the status that the
-- response had when the code behind ended. When RecoverMiddleware returns, the response has that status
-- where the code behind returned, and 500 where it panicked; what Fiber's error handler makes of an error
-- that is returned comes after it.
pub recover_middleware-traced :
    (send : List Event → Option Error) (version : Bytes) (max : ℤ)
    (world : List Event → Bytes × Bytes) (req : Request) (next : Next) (log : List Event)
    → is_excluded req.path ≡ false
    → let before = entered version max req log in
      let behind = next before in
      let out =
        recover_middleware send (jaeger_tracing_middleware version max world req next) log in
      (traced before ≡ traced log)
      × (finishes before ≡ finishes log)
      × (has_panicked out.0 ≡ false)
      × (traced out.1 ≡ status_of behind.1 ∷ traced behind.1)
      × (finishes out.1 ≡ 1 + finishes behind.1)
      × (status_of out.1 ≡ (if has_panicked behind.0 then 500 else status_of behind.1))
unfolding jaeger_tracing_middleware recover_middleware
recover_middleware-traced send version max world req next log e =
    let (returns, _, tags, ends) =
      trace_request-Quiet version max req (start_trace req.headers ∷ log) in
    let shape =
      behind-lem next (trace_response max world)
        (trace_request version max req (start_trace req.headers ∷ log)) returns in
    let (fails, traces, finished, code) =
      closing send max world (next (entered version max req log)) in
    rw (e, shape) (tags, ends, fails, traces, finished, code)
