-- ===== src/PubSub/EndToEnd.antt =====
-- From PublishMessage of gcppubsub/publisher.go to processMessage of gcppubsub/consumer.go: what a
-- service publishes is what the handler of the topic is given.

use candi_plugin.Base.{
  ◌≡◌, refl, sym, ap, subst, ◌∙◌, List, [], ◌∷◌, Option, none, some, arith, bytes_eq, if◌then◌else◌,
}
use candi_plugin.Go.Text.{Bytes, codes}
use candi_plugin.Go.Map.{lookup, insert, lookup-insert, last_value}
use candi_plugin.Go.Outcome.{Outcome, ok, ok-inj}
use candi_plugin.Go.Act.{after-ok}
use candi_plugin.Candi.{
  Event, Error, Attributes, Context, HandlerFunc, WorkerHandler, ServiceModule, PublisherArgument,
  module_handlers, message_or_data, publish_pubsub, received, traced, skip_trace, start_trace,
  set_header, set_key, write, acquire,
}
use candi_plugin.Candi.Events.{positions, inputs}
use candi_plugin.Candi.Handlers.{constant, calls, run_funcs-calls, run_funcs, run_funcs-keeps}
use candi_plugin.PubSub.Broker.{Broker, publish_message, copy_header}
use candi_plugin.PubSub.Worker.{
  WorkerEngine, Client, Message, Finish, report, process_setup, process_selected, process_running,
  process_message, release_after, or_no_handler, new_pubsub_worker, mount_handler, mount_handlers,
  empty_worker,
}
use candi_plugin.PubSub.Worker.Delivery.{
  options_of, finish-Closed, Finishes, Finished, process_message-Finished,
}
use candi_plugin.PubSub.Worker.Mounting.{last_of, mount_handler-ok, new_pubsub_worker-last}

-- What Pub/Sub was given: the topic, the data and the attributes of each message, the last first.
abbrev pub published : List Event → List (Bytes × Bytes × Attributes)
published [] = []
published (publish_pubsub topic body attributes ∷ log) = (topic, body, attributes) ∷ published log
published (e ∷ log) = published log

copy_header-last :
    (header m : Attributes) (key : Bytes)
    → lookup key (copy_header header m) ≡ last_value key header (lookup key m)
unfolding copy_header
copy_header-last [] m key = refl
copy_header-last (entry ∷ entries) m key =
    copy_header-last entries (insert entry.0 entry.1 m) key
    ∙ ap (last_value key entries) (lookup-insert entry.0 key entry.1 m)

setup-inputs :
    (w : WorkerEngine) (topic : Bytes) (msg : Message) (ctx : Context) (log : List Event)
    → let r = process_setup w topic msg ctx log in
      (r.0 ≡ ok tt)
      × (inputs r.1
          ≡ write msg.data_bytes ∷ set_key msg.id ∷ set_header msg.attributes ∷ inputs log)
      × (positions r.1 ≡ positions log)
unfolding process_setup
setup-inputs w topic msg ctx log = ground arith

run_funcs-inputs :
    (fs : List HandlerFunc) (log : List Event) → inputs (run_funcs report 0 fs log).1 ≡ inputs log
unfolding report
run_funcs-inputs fs log =
    run_funcs-keeps (λ l. inputs l ≡ inputs log) report (λ i l p. p) (λ e l p. p) 0 fs log refl

-- The loop of the handler's functions.
run_all-calls :
    (h : WorkerHandler) (os : List (Outcome (Option Error))) (log : List Event)
    → h.handler_funcs ≡ constant os
    → positions (run_funcs report 0 h.handler_funcs log).1 ≡ calls 0 os (positions log)
unfolding report
run_all-calls h os log e = rw e (run_funcs-calls report 0 os log (λ err l. (refl, refl)))

process_message-inputs :
    (trace_finish : Finish) (w : WorkerEngine) (topic : Bytes) (msg : Message) (h : WorkerHandler)
    (os : List (Outcome (Option Error)))
    → Finishes trace_finish
    → w.err ≡ none
    → lookup topic w.handlers ≡ some h
    → h.handler_funcs ≡ constant os
    → let r = process_message trace_finish w topic msg [] in
      (positions r.1 ≡ calls 0 os [])
      × (inputs r.1
          ≡ write msg.data_bytes
            ∷ set_key msg.id
            ∷ set_header msg.attributes
            ∷ start_trace
                (if h.disable_trace then skip_trace received else received)
                (codes "GCPPubSubConsumer")
                msg.attributes
            ∷ [])
unfolding process_message process_running process_selected release_after or_no_handler
process_message-inputs trace_finish w topic msg h os law runs found e =
    let ctx = if h.disable_trace then skip_trace received else received in
    let begun = start_trace ctx (codes "GCPPubSubConsumer") msg.attributes ∷ acquire topic ∷ [] in
    let ready = process_setup w topic msg (traced ctx) begun in
    let ran = run_funcs report 0 h.handler_funcs ready.1 in
    let set = setup-inputs w topic msg (traced ctx) begun in
    let o = options_of h in
    let closed =
      finish-Closed h ran.1 (trace_finish o ran.0 ran.1) (law.finishes o ran.0 ran.1 refl) in
    rw (runs, found)
      (ground (
        arith,
        set,
        run_funcs-inputs h.handler_funcs ready.1,
        run_all-calls h os ready.1 e,
        closed.handles,
        closed.told,
        closed.returns,
      ))

mount_handlers-err :
    (subscriber_id : Bytes) (client : Client) (hs : List WorkerHandler) (w w' : WorkerEngine)
    (log : List Event)
    → (mount_handlers client subscriber_id hs w log).0 ≡ ok w'
    → w'.err ≡ w.err
unfolding mount_handlers
mount_handlers-err subscriber_id client [] w w' log e = ap (λ x. x.err) (sym (ok-inj e))
mount_handlers-err subscriber_id client (h ∷ hs) w w' log e =
    let m = mount_handler client subscriber_id h w log in
    let (w1, first, rest) = after-ok m (mount_handlers client subscriber_id hs) e in
    mount_handlers-err subscriber_id client hs w1 w' m.1 rest
    ∙ ap (λ x. x.err) (mount_handler-ok subscriber_id client h w w1 log first)

-- A message that PublishMessage has given to Pub/Sub, with its data and attributes unchanged, comes
-- to a worker that NewPubSubWorker has returned, under a tracer whose Finish, with the option that
-- recovers, stops a panic, runs the function that it is given once and ends the trace once, and
-- does no more than that but for tags and log lines; the functions of the last handler of the
-- service for the topic each end the same way whatever was done before. That handler is run: its
-- functions are called in order, up to the first that panics, on an event context with the body
-- that was published, the identifier of the message, and the published attributes as header, from
-- which the trace is started too. For each key these are the argument's header, and what the
-- publisher's trace has injected where the argument has none. The goroutine returns, gives its
-- place back, and acknowledges the message if and only if the handler has AutoACK.
pub publish-received :
    (inject : Attributes → Attributes) (answer : List Event → Option Error)
    (args : PublisherArgument) (modules : List ServiceModule) (bk : Broker) (client : Client)
    (subscriber_id : Bytes) (w : WorkerEngine) (h : WorkerHandler) (trace_finish : Finish)
    (msg : Message) (os : List (Outcome (Option Error)))
    → (new_pubsub_worker modules (some bk) client subscriber_id []).0 ≡ ok w
    → last_of args.topic (module_handlers modules) none ≡ some h
    → Finishes trace_finish
    → h.handler_funcs ≡ constant os
    → published (publish_message inject answer args []).1
      ≡ (args.topic, msg.data_bytes, msg.attributes) ∷ []
    → let r = process_message trace_finish w args.topic msg [] in
      (positions r.1 ≡ calls 0 os [])
      × (inputs r.1
          ≡ write (message_or_data args)
            ∷ set_key msg.id
            ∷ set_header msg.attributes
            ∷ start_trace
                (if h.disable_trace then skip_trace received else received)
                (codes "GCPPubSubConsumer")
                msg.attributes
            ∷ [])
      × ((key : Bytes)
          → lookup key msg.attributes ≡ last_value key args.header (lookup key (inject [])))
      × Finished 1 h [] r
unfolding publish_message new_pubsub_worker empty_worker or_no_handler
publish-received inject answer args modules bk client subscriber_id w h trace_finish msg os made
      last law ends sent =
    let runs : w.err ≡ none =
      mount_handlers-err subscriber_id client (module_handlers modules) (empty_worker bk) w []
        made in
    let found : lookup args.topic w.handlers ≡ some h =
      (new_pubsub_worker-last modules bk client subscriber_id [] w args.topic made).0 ∙ last in
    let body : message_or_data args ≡ msg.data_bytes = cc in
    let attributes : copy_header args.header (inject []) ≡ msg.attributes = cc in
    let ran = process_message-inputs trace_finish w args.topic msg h os law runs found ends in
    (
      ran.0,
      rw body (ran.1),
      λ key. ap (lookup key) (sym attributes) ∙ copy_header-last args.header (inject []) key,
      subst
          (λ x. Finished 1 (or_no_handler x) [] (process_message trace_finish w args.topic msg []))
          found (process_message-Finished trace_finish law w args.topic msg [] runs),
    )
