-- ===== src/Mqtt/Subscriber/EndToEnd.antt =====
-- From the topic of a message to the end of its trace: processMessage of mqtt-broker/subscriber.go on a
-- worker that NewMQTTSubscriber has built.
use candi_plugin.Base.{
  ℕ, suc, ◌+◌, ◌≡◌, Bool, true, List, [], ◌∷◌, Option, none, some, arith, All, bytes_eq,
  if◌then◌else◌,
}
use candi_plugin.Go.Text.{codes}
use candi_plugin.Go.Outcome.{Outcome, ok, panics}
use candi_plugin.Candi.{
  Event, Error, Context, Attributes, WorkerHandler, ServiceModule, module_handlers, handle,
  set_error, set_header, finish, root, skip_trace, start_trace, wg_add,
}
use candi_plugin.Candi.Events.{count, is_ack, positions, if_due}
use candi_plugin.Candi.Handlers.{constant, calls}
use candi_plugin.Mqtt.Broker.{Broker}
use candi_plugin.Mqtt.Router.{has_funcs}
use candi_plugin.Mqtt.Router.Segments.{IsPlain, Matches, bind}
use candi_plugin.Mqtt.Router.Matching.{Unshadowed}
use candi_plugin.Mqtt.Subscriber.{
  WorkerEngine, Options, Message, new_mqtt_subscriber, run_handlers, report, process_setup,
  process_body, process_end, recover_error, process_matched, process_message,
}
use candi_plugin.Mqtt.Subscriber.Routing.{In, pattern_of, levels_of, match_complete}
use candi_plugin.Mqtt.Subscriber.Table.{mount_handlers-Refined}

-- The errors that those return, the last first, before the errors that there were.
abbrev pub errors_of : List (Outcome (Option Error)) → List Error → List Error
errors_of [] before = before
errors_of (ok none ∷ os) before = errors_of os before
errors_of (ok (some e) ∷ os) before = errors_of os (e ∷ before)
errors_of (panics v ∷ os) before = before

-- How the loop over them ends, with the variable err before.
abbrev pub last_outcome : Option Error → List (Outcome (Option Error)) → Outcome (Option Error)
last_outcome err [] = ok err
last_outcome err (ok r ∷ os) = last_outcome r os
last_outcome err (panics v ∷ os) = panics v

-- The error of an end of processMessage.
abbrev pub error_of : Outcome (Option Error) → Option Error
error_of (ok err) = err
error_of (panics v) = some v

-- The headers that event contexts were given, the errors that were set on them, and those that traces
-- were finished with; the last first.
abbrev pub headers : List Event → List Attributes
headers [] = []
headers (set_header header ∷ log) = header ∷ headers log
headers (e ∷ log) = headers log

abbrev pub errors_set : List Event → List Error
errors_set [] = []
errors_set (set_error err ∷ log) = err ∷ errors_set log
errors_set (e ∷ log) = errors_set log

abbrev pub ended : List Event → List (Option Error)
ended [] = []
ended (finish err ∷ log) = err ∷ ended log
ended (e ∷ log) = ended log

record Ran (i : ℕ) (os : List (Outcome (Option Error))) (err : Option Error) (log : List Event)
    (r : Outcome (Option Error) × List Event) : Type 0 where
  ends : r.0 ≡ last_outcome err os
  handles : positions r.1 ≡ calls i os (positions log)
  errors : errors_set r.1 ≡ errors_of os (errors_set log)
  acks : count is_ack r.1 ≡ count is_ack log
  given : headers r.1 ≡ headers log
  traces : ended r.1 ≡ ended log

run_handlers-Ran :
    (i : ℕ) (os : List (Outcome (Option Error))) (err : Option Error) (log : List Event)
    → Ran i os err log (run_handlers i (constant os) err log)
unfolding run_handlers report
run_handlers-Ran i [] err log = ground arith
run_handlers-Ran i (panics v ∷ os) err log = ground arith
run_handlers-Ran i (ok none ∷ os) err log =
    ground (arith, run_handlers-Ran (suc i) os none (handle i ∷ log))
run_handlers-Ran i (ok (some e) ∷ os) err log =
    ground (arith, run_handlers-Ran (suc i) os (some e) (set_error e ∷ handle i ∷ log))

record Processed (due : Bool) (params : Attributes) (os : List (Outcome (Option Error)))
    (log : List Event) (r : Outcome (Unit {0}) × List Event) : Type 0 where
  returns : r.0 ≡ ok tt
  given : headers r.1 ≡ params ∷ headers log
  handles : positions r.1 ≡ calls 0 os (positions log)
  errors : errors_set r.1 ≡ errors_of os (errors_set log)
  traces : ended r.1 ≡ error_of (last_outcome none os) ∷ ended log
  acks : count is_ack r.1 ≡ if_due due + count is_ack log

record Readied (params : Attributes) (log : List Event) (r : Outcome (Unit {0}) × List Event)
    : Type 0 where
  returns : r.0 ≡ ok tt
  given : headers r.1 ≡ params ∷ headers log
  handles : positions r.1 ≡ positions log
  errors : errors_set r.1 ≡ errors_set log
  acks : count is_ack r.1 ≡ count is_ack log
  traces : ended r.1 ≡ ended log

process_setup-Readied :
    (w : WorkerEngine) (m : Message) (ctx : Context) (params : Attributes) (log : List Event)
    → Readied params log (process_setup w m ctx params log)
unfolding process_setup
process_setup-Readied w m ctx params log = ground arith

record Ended (due : Bool) (o : Outcome (Option Error)) (log : List Event)
    (r : Outcome (Unit {0}) × List Event) : Type 0 where
  returns : r.0 ≡ ok tt
  given : headers r.1 ≡ headers log
  handles : positions r.1 ≡ positions log
  errors : errors_set r.1 ≡ errors_set log
  acks : count is_ack r.1 ≡ if_due due + count is_ack log
  traces : ended r.1 ≡ error_of o ∷ ended log

process_end-Ended :
    (h : WorkerHandler) (o : Outcome (Option Error)) (log : List Event)
    → Ended h.auto_ack o log (process_end h o log)
unfolding process_end recover_error
process_end-Ended h (ok err) log = ground arith
process_end-Ended h (panics v) log = ground arith

process_matched-Processed :
    (w : WorkerEngine) (m : Message) (h : WorkerHandler) (params : Attributes)
    (os : List (Outcome (Option Error))) (log : List Event)
    → h.handler_funcs ≡ constant os
    → Processed h.auto_ack params os log (process_matched w m (h, params) log)
unfolding process_matched process_body
process_matched-Processed w m h params os log e =
    let ctx = if h.disable_trace then skip_trace root else root in
    let begun = start_trace ctx (codes "MQTTSubscriber") [] ∷ wg_add ∷ log in
    let readied = process_setup-Readied w m ctx params begun in
    let ready = (process_setup w m ctx params begun).1 in
    let ran : Ran 0 os none ready (run_handlers 0 h.handler_funcs none ready) =
      rw e (run_handlers-Ran 0 os none ready) in
    let body = process_body w m ctx h params begun in
    let end = process_end-Ended h body.0 body.1 in ground (arith, readied, ran, end)

-- Where NewMQTTSubscriber succeeds on patterns with no empty segment, and a handler of the service has
-- functions, each of which ends the same way whatever was done before: a message on a topic that the
-- handler's pattern fits, where the router has no static child for a level that the pattern takes as a
-- parameter, runs that handler: its functions in order, up to the first that panics, on an event context
-- whose header is the levels at the pattern's parameters. processMessage returns, has set the errors
-- that the functions returned on the event context, each once and in order, acknowledges the message if
-- and only if the handler has AutoACK, and finishes the trace once, with the value of a panic or else
-- with the last function's result: an earlier error is lost from it where a later function succeeds.
pub process_message-routed :
    (modules : List ServiceModule) (broker : Broker) (opts : List (Options → Options))
    (w : WorkerEngine) (h : WorkerHandler) (os : List (Outcome (Option Error))) (m : Message)
    → All (λ h. All IsPlain (pattern_of h)) (module_handlers modules)
    → new_mqtt_subscriber modules (some broker) opts ≡ ok w
    → In h (module_handlers modules)
    → has_funcs h ≡ true
    → Matches (pattern_of h) (levels_of m.topic)
    → Unshadowed (pattern_of h) (levels_of m.topic) w.router
    → h.handler_funcs ≡ constant os
    → let r = process_message w m [] in
      (r.0 ≡ ok tt)
      × (positions r.1 ≡ calls 0 os [])
      × (headers r.1 ≡ bind (pattern_of h) (levels_of m.topic) [] ∷ [])
      × (errors_set r.1 ≡ errors_of os [])
      × (count is_ack r.1 ≡ if_due h.auto_ack)
      × (ended r.1 ≡ error_of (last_outcome none os) ∷ [])
unfolding process_message new_mqtt_subscriber
process_message-routed modules broker opts w h os m plain made listed has fits open_ e =
    let running : w.err ≡ none =
      (mount_handlers-Refined (module_handlers modules) _ w plain (tt, tt) made).err in
    let chosen = match_complete modules broker opts w plain made h m.topic listed has fits open_ in
    let p = process_matched-Processed w m h (bind (pattern_of h) (levels_of m.topic) []) os [] e in
    rw (running, chosen) (ground (arith, p))
