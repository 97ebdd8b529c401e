-- ===== src/PubSub/Worker.antt =====
-- gcppubsub/consumer.go: the worker's construction and what it does with a message.
pub mod Delivery
pub mod Mounting
mod Tests
use candi_plugin.Base.{
  Bool, true, false, not, List, [], ◌∷◌, ◌++◌, Option, none, some, ◌==◌, bytes_eq, if◌then◌else◌,
  ◌⊎◌, inl, inr,
}
use candi_plugin.Go.Text.{Bytes, codes}
use candi_plugin.Go.Outcome.{Outcome, ok, panics}
use candi_plugin.Go.Map.{lookup, insert}
use candi_plugin.Go.Act.{Act, ◌>>=◌, ◌>>◌, return, emit, ask, call, deferred, panic}
use candi_plugin.Candi.{
  Event, Error, Context, Attributes, WorkerHandler, ServiceModule, received, skip_trace, traced,
  text, attrs, start_trace, set_tag, trace_log, finish, set_context, set_worker_type,
  set_handler_route, set_key, set_header, write, set_error, ack, acquire, release, console, cancel,
  shutdown_send, shutdown_receive, disconnect, check_topic, create_topic_call, check_subscription,
  create_subscription_call, receive, no_worker_handler, module_handlers,
}
use candi_plugin.Candi.Handlers.{when, run_funcs}
use candi_plugin.Candi.Tracing.{FinishOptions}
use candi_plugin.PubSub.Broker.{Broker, google_cloud_pubsub}

-- workerEngine. A subscription is known by its identifier; `semaphore` has the keys of the map of
-- that name; `err` is what ctx.Err() returns.
pub record WorkerEngine : Type 0 where
  pub err : Option Error
  pub semaphore : List (Bytes × Unit {0})
  pub bk : Broker
  pub subscribers : List (Bytes × Bytes)
  pub handlers : List (Bytes × WorkerHandler)

unfoldable pub is_renamed : Bytes → Bool
is_renamed name = not (name == google_cloud_pubsub)

unfoldable pub get_worker_type_log : Bytes → Bytes
get_worker_type_log name =
    if is_renamed name then codes " [worker_type: " ++ (name ++ codes "]") else []

-- What the client answers: to Exists whether there is one, or an error, and to the creation of one
-- the error.
pub record Client : Type 0 where
  pub topic_exists : List Event → Error ⊎ Bool
  pub create_topic_error : List Event → Option Error
  pub subscription_exists : List Event → Error ⊎ Bool
  pub create_subscription_error : List Event → Option Error

-- The panic of an error, by what comes before it in the message.
unfoldable pub must : Bytes → Option Error → Act Event (Unit {0})
must what none = return tt
must what (some err) = panic (what ++ err)

unfoldable pub ensure_topic : Client → Bytes → Error ⊎ Bool → Act Event Bytes
ensure_topic client name (inl err) =
    panic (codes "GCP PubSub check topic " ++ (name ++ (codes ": " ++ err)))
ensure_topic client name (inr true) = return name
ensure_topic client name (inr false) = do
  emit (create_topic_call name)
  err ← ask client.create_topic_error
  must (codes "GCP PubSub create topic " ++ (name ++ codes ": ")) err
  return name

-- createTopic; a topic is known by its name.
unfoldable pub create_topic : Client → Bytes → Act Event Bytes
create_topic client name = do
  emit (check_topic name)
  r ← ask client.topic_exists
  ensure_topic client name r

unfoldable pub ensure_subscription : Client → Bytes → Bytes → Error ⊎ Bool → Act Event Bytes
ensure_subscription client id topic (inl err) =
    panic (codes "GCP PubSub check subscriber " ++ (id ++ (codes ": " ++ err)))
ensure_subscription client id topic (inr true) = return id
ensure_subscription client id topic (inr false) = do
  emit (create_subscription_call id topic)
  err ← ask client.create_subscription_error
  must (codes "GCP PubSub create subscriber " ++ (id ++ codes ": ")) err
  return id

unfoldable pub create_subscription : Client → Bytes → Bytes → Act Event Bytes
create_subscription client id topic = do
  emit (check_subscription id)
  r ← ask client.subscription_exists
  ensure_subscription client id topic r

-- The body of the innermost loop of NewPubSubWorker, for one handler.
unfoldable pub mount_handler :
    Client → (subscriber_id : Bytes) → WorkerHandler → WorkerEngine → Act Event WorkerEngine
mount_handler client subscriber_id h w = do
  topic ← create_topic client h.pattern
  sub ← create_subscription client (subscriber_id ++ (codes "_" ++ h.pattern)) topic
  return (record w {
    subscribers = insert h.pattern sub w.subscribers;
    handlers = insert h.pattern h w.handlers;
    semaphore = insert h.pattern tt w.semaphore;
  })

unfoldable pub mount_handlers :
    Client → Bytes → List WorkerHandler → WorkerEngine → Act Event WorkerEngine
mount_handlers client subscriber_id [] w = return w
mount_handlers client subscriber_id (h ∷ hs) w = do
  w' ← mount_handler client subscriber_id h w
  mount_handlers client subscriber_id hs w'

-- The worker before the loop over the modules.
unfoldable pub empty_worker : Broker → WorkerEngine
empty_worker bk = record { err = none; semaphore = []; bk = bk; subscribers = []; handlers = [] }

-- NewPubSubWorker; the broker is `none` if the type assertion on it fails.
unfoldable pub new_pubsub_worker :
    List ServiceModule → Option Broker → Client → (subscriber_id : Bytes) → Act Event WorkerEngine
new_pubsub_worker modules none client subscriber_id = panic (
    codes
      "Missing GCP PubSub broker, make sure GCP PubSub has been registered to broker in service config")
new_pubsub_worker modules (some bk) client subscriber_id =
    mount_handlers client subscriber_id (module_handlers modules) (empty_worker bk)

-- The goroutines that Serve starts, and its end.
unfoldable pub receive_all : List (Bytes × Bytes) → Act Event (Unit {0})
receive_all [] = return tt
receive_all (s ∷ ss) = do emit (receive s.1 s.0); receive_all ss

unfoldable pub serve : WorkerEngine → Act Event (Unit {0})
serve w = do receive_all w.subscribers; emit shutdown_receive

-- The deferred function of Shutdown recovers.
unfoldable pub recovered : Outcome (Unit {0}) → Act Event (Unit {0})
recovered outcome = emit (console (codes "Stopping GCP PubSub Worker" ∷ codes "SUCCESS" ∷ []))

-- Shutdown; `close` is Client.Close, which panics on a nil client.
unfoldable pub shutdown :
    (close : List Event → Outcome (Unit {0})) → WorkerEngine → Act Event (Unit {0})
shutdown close w =
    deferred (do emit cancel; emit shutdown_send; emit (disconnect 0); call close) recovered

-- pubsub.Message: what the code reads of it.
pub record Message : Type 0 where
  pub id : Bytes
  pub data_bytes : Bytes
  pub attributes : Attributes

-- w.handlers[topic]: the zero value where there is none.
unfoldable pub or_no_handler : Option WorkerHandler → WorkerHandler
or_no_handler none = no_worker_handler
or_no_handler (some h) = h

unfoldable pub report : Error → Act Event (Unit {0})
report err = emit (set_error err)

unfoldable pub process_setup : WorkerEngine → Bytes → Message → Context → Act Event (Unit {0})
process_setup w topic msg ctx = do
  when (is_renamed w.bk.worker_type) (emit (set_tag (codes "worker_type") (text w.bk.worker_type)))
  emit (set_tag (codes "topic") (text topic))
  emit (trace_log (codes "attributes") (attrs msg.attributes))
  emit (trace_log (codes "body") (text msg.data_bytes))
  emit (console (get_worker_type_log w.bk.worker_type ∷ topic ∷ []))
  emit (set_context ctx)
  emit (set_worker_type w.bk.worker_type)
  emit (set_handler_route topic)
  emit (set_header msg.attributes)
  emit (set_key msg.id)
  emit (write msg.data_bytes)

-- A Finish of candi's tracer, deferred: what it does with its options is the tracer's.
abbrev pub Finish : Type 0
Finish = FinishOptions → Outcome (Unit {0}) → Act Event (Unit {0})

-- func() { if selectedHandler.AutoACK { msg.Ack() } }
abbrev pub ack_func : WorkerHandler → Act Event (Unit {0})
ack_func h = when h.auto_ack (emit ack)

-- The goroutine of processMessage before its outer deferred function.
unfoldable pub process_selected :
    Finish → WorkerEngine → Bytes → Message → WorkerHandler → Act Event (Unit {0})
process_selected trace_finish w topic msg h = do
  let ctx = if h.disable_trace then skip_trace received else received
  emit (start_trace ctx (codes "GCPPubSubConsumer") msg.attributes)
  deferred (do process_setup w topic msg (traced ctx); run_funcs report 0 h.handler_funcs)
      (trace_finish (record { recovers = true; with_func = ack_func h }))

-- The outer deferred function gives the place in the semaphore back, and recovers nothing.
unfoldable pub release_after : Bytes → Outcome (Unit {0}) → Act Event (Unit {0})
release_after topic (ok u) = emit (release topic)
release_after topic (panics v) = do emit (release topic); panic v

unfoldable pub process_running :
    Finish → WorkerEngine → Bytes → Message → Option Error → Act Event (Unit {0})
process_running trace_finish w topic msg (some err) =
    emit (console ((codes "gcppubsub_consumer > ctx root err: " ++ err) ∷ []))
process_running trace_finish w topic msg none = do
  emit (acquire topic)
  deferred (process_selected trace_finish w topic msg (or_no_handler (lookup topic w.handlers)))
      (release_after topic)

-- processMessage with its goroutine, run to the end.
unfoldable pub process_message : Finish → WorkerEngine → Bytes → Message → Act Event (Unit {0})
process_message trace_finish w topic msg = process_running trace_finish w topic msg w.err

-- Name
abbrev pub worker_name : WorkerEngine → Bytes
worker_name w = w.bk.worker_type
