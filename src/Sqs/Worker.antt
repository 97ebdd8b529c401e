-- ===== src/Sqs/Worker.antt =====
-- amazonsqs/consumer.go: the worker's construction and what it does with the messages of a queue.
pub mod Mounting
mod Tests
use candi_plugin.Base.{
  ℕ, ◌+◌, Bool, true, false, not, List, [], ◌∷◌, ◌++◌, Option, none, some, ◌⊎◌, inl, inr, ◌==◌,
  bytes_eq, if◌then◌else◌,
}
use candi_plugin.Go.Text.{Bytes, codes}
use candi_plugin.Go.Outcome.{Outcome, ok, panics}
use candi_plugin.Go.Map.{GoMap, store, load, entries}
use candi_plugin.Go.Act.{Act, ◌>>=◌, ◌>>◌, return, emit, ask, deferred, panic}
use candi_plugin.Candi.{
  Event, delete_sqs, Error, Context, Attributes, WorkerHandler, ServiceModule, root, skip_trace,
  traced, text, opaque, start_trace, set_tag, trace_log, set_context, set_worker_type,
  set_handler_route, set_key, set_header, write, set_error, acquire, release, console,
  shutdown_send, wg_wait, get_queue_url, receive_message, no_worker_handler, module_handlers,
}
use candi_plugin.Candi.Tracing.{FinishOptions}
use candi_plugin.Candi.Handlers.{when, run_funcs}
use candi_plugin.Sqs.Broker.{Broker, amazon_sqs_broker}

-- types.Message of the SDK: what the code reads of it; the two pointers may be nil.
pub record Message : Type 0 where
  pub message_id : Option Bytes
  pub body : Option Bytes
  pub receipt_handle : Bytes
  pub attributes : Attributes

-- workerEngine. A received batch is its messages, and a queue's URL its text; `err` is what ctx.Err()
-- returns, `name` service.Name(); `semaphore` is how many places of a topic are taken.
pub record WorkerEngine : Type 0 where
  pub err : Option Error
  pub name : Bytes
  pub semaphore : GoMap ℕ
  pub is_shutdown : Bool
  pub bk : Broker
  pub subscribers : GoMap (List Message)
  pub queue_url : GoMap Bytes
  pub handlers : GoMap WorkerHandler

unfoldable pub is_renamed : Bytes → Bool
is_renamed name = not (name == amazon_sqs_broker)

unfoldable pub get_worker_type_log : Bytes → Bytes
get_worker_type_log name =
    if is_renamed name then codes " [worker_type: " ++ (name ++ codes "]") else []

-- What the client answers to GetQueueUrl, for a queue, and to ReceiveMessage, for its URL.
pub record Client : Type 0 where
  pub queue_url_of : Bytes → List Event → Error ⊎ Bytes
  pub received : Bytes → List Event → Error ⊎ List Message

-- The log.Panicf of an error.
unfoldable pub or_panic : {A : Type 0} → Bytes → Bytes → Error ⊎ A → Act Event A
or_panic worker_type pattern (inr a) = return a
or_panic worker_type pattern (inl err) = panic (
    codes "AmazonSQS"
    ++ (get_worker_type_log worker_type
        ++ (codes ": cannot subscribe to " ++ (pattern ++ (codes ": " ++ err)))))

abbrev pub lift : {A : Type 0} → Outcome A → Act Event A
lift outcome log = (outcome, log)

-- The body of the innermost loop of NewAmazonSQSWorker, for one handler.
unfoldable pub mount_handler : Client → WorkerHandler → WorkerEngine → Act Event WorkerEngine
mount_handler client h w = do
  emit (get_queue_url h.pattern)
  found ← ask (client.queue_url_of h.pattern)
  url ← or_panic w.bk.worker_type h.pattern found
  emit (receive_message url)
  answer ← ask (client.received url)
  batch ← or_panic w.bk.worker_type h.pattern answer
  subscribers ← lift (store h.pattern batch w.subscribers)
  queue_url ← lift (store h.pattern url w.queue_url)
  handlers ← lift (store h.pattern h w.handlers)
  semaphore ← lift (store h.pattern 0 w.semaphore)
  return (record w {
    subscribers = subscribers;
    queue_url = queue_url;
    handlers = handlers;
    semaphore = semaphore;
  })

unfoldable pub mount_handlers : Client → List WorkerHandler → WorkerEngine → Act Event WorkerEngine
mount_handlers client [] w = return w
mount_handlers client (h ∷ hs) w = do w' ← mount_handler client h w; mount_handlers client hs w'

-- The worker before the loop over the modules: new(workerEngine), and two of its maps made.
unfoldable pub empty_worker : Bytes → Broker → WorkerEngine
empty_worker name bk = record {
  err = none;
  name = name;
  semaphore = some [];
  is_shutdown = false;
  bk = bk;
  subscribers = none;
  queue_url = none;
  handlers = some [];
}

-- NewAmazonSQSWorker; the broker is `none` if the type assertion on it fails. The numbers of messages
-- and of seconds go to the client alone. The field `service` is left nil by the source: `name` stands
-- for the name of the service where there is one.
unfoldable pub new_amazon_sqs_worker :
    (name : Bytes) → List ServiceModule → Option Broker → Client → Act Event WorkerEngine
new_amazon_sqs_worker name modules none client = panic (
    codes
      "Missing Amazon SQS broker, make sure Amazon SQS has been registered to broker in service config")
new_amazon_sqs_worker name modules (some bk) client =
    mount_handlers client (module_handlers modules) (empty_worker name bk)

-- The zero value where there is none.
unfoldable pub or_no_handler : Option WorkerHandler → WorkerHandler
or_no_handler none = no_worker_handler
or_no_handler (some h) = h

unfoldable pub report : Error → Act Event (Unit {0})
report err = emit (set_error err)

unfoldable pub set_key_of : Option Bytes → Act Event (Unit {0})
set_key_of none = return tt
set_key_of (some id) = emit (set_key id)

unfoldable pub write_body : Option Bytes → Act Event (Unit {0})
write_body none = return tt
write_body (some body) = emit (write body)

-- What comes before the loop over the handler functions, for one message.
unfoldable pub process_setup : WorkerEngine → Bytes → Message → Context → Act Event (Unit {0})
process_setup w topic m ctx = do
  when (is_renamed w.bk.worker_type) (emit (set_tag (codes "worker_type") (text w.bk.worker_type)))
  emit (set_tag (codes "topic") (text topic))
  emit (trace_log (codes "attributes") opaque)
  emit (trace_log (codes "message_id") opaque)
  emit (trace_log (codes "body") opaque)
  emit (set_context ctx)
  emit (set_worker_type w.bk.worker_type)
  emit (set_handler_route topic)
  emit (set_header m.attributes)
  set_key_of m.message_id
  write_body m.body

-- The trace.Finish of candi's tracer, called with its options: what it does with them is the tracer's.
abbrev pub Finish : Type 0
Finish = FinishOptions → Act Event (Unit {0})

-- Client.DeleteMessage with the URL of the entry of the map queueUrl: the entry of a missing key is nil,
-- which has no field.
unfoldable pub delete_message : Option Bytes → (receipt_handle : Bytes) → Act Event (Unit {0})
delete_message none receipt_handle =
    panic (codes "runtime error: invalid memory address or nil pointer dereference")
delete_message (some url) receipt_handle = emit (delete_sqs url receipt_handle)

-- The function of FinishWithFunc.
abbrev pub delete_func : WorkerEngine → Bytes → WorkerHandler → Message → Act Event (Unit {0})
delete_func w topic h m = when h.auto_ack (delete_message (load topic w.queue_url) m.receipt_handle)

-- The body of the loop over the messages of a batch. The call of trace.Finish is not deferred: after
-- the panic of a handler function it is not made.
unfoldable pub process_one :
    Finish → WorkerEngine → Bytes → WorkerHandler → Context → Message → Act Event (Unit {0})
process_one trace_finish w topic h ctx m = do
  emit (start_trace ctx (codes "AmazonSQSConsumer") m.attributes)
  process_setup w topic m (traced ctx)
  run_funcs report 0 h.handler_funcs
  trace_finish (record { recovers = true; with_func = delete_func w topic h m })

unfoldable pub process_batch :
    Finish → WorkerEngine → Bytes → WorkerHandler → Context → List Message → Act Event (Unit {0})
process_batch trace_finish w topic h ctx [] = return tt
process_batch trace_finish w topic h ctx (m ∷ ms) = do
  process_one trace_finish w topic h ctx m
  process_batch trace_finish w topic h ctx ms

-- The deferred function of the goroutine recovers nothing.
unfoldable pub release_after : Bytes → Outcome (Unit {0}) → Act Event (Unit {0})
release_after topic (ok u) = emit (release topic)
release_after topic (panics v) = do emit (release topic); panic v

unfoldable pub process_running :
    Finish → WorkerEngine → Bytes → List Message → Option Error → Act Event (Unit {0})
process_running trace_finish w queue ms (some err) =
    emit (console ((codes "amazonsqs_consumer > ctx root err: " ++ err) ∷ []))
process_running trace_finish w queue ms none = do
  emit (acquire queue)
  let h = or_no_handler (load queue w.handlers)
  deferred
      (do
        process_batch trace_finish w queue h (if h.disable_trace then skip_trace root else root) ms
        emit (console (get_worker_type_log w.bk.worker_type ∷ queue ∷ [])))
      (release_after queue)

-- processMessage with its goroutine, run to the end, in the worker's context, which Serve gives it.
unfoldable pub process_message : Finish → WorkerEngine → Bytes → List Message → Act Event (Unit {0})
process_message trace_finish w queue ms = process_running trace_finish w queue ms w.err

-- The goroutines that Serve starts, one after another: each queue's batch of the construction, once.
unfoldable pub serve_all :
    Finish → WorkerEngine → List (Bytes × List Message) → Act Event (Unit {0})
serve_all trace_finish w [] = return tt
serve_all trace_finish w (s ∷ ss) = do
  process_message trace_finish w s.0 s.1
  serve_all trace_finish w ss

unfoldable pub serve : Finish → WorkerEngine → Act Event (Unit {0})
serve trace_finish w = serve_all trace_finish w (entries w.subscribers)

-- The jobs that Shutdown counts.
unfoldable pub running_job : List (Bytes × ℕ) → ℕ
running_job [] = 0
running_job (sem ∷ sems) = sem.1 + running_job sems

unfoldable pub shutdown : WorkerEngine → Act Event WorkerEngine
shutdown w = do
  emit shutdown_send
  let w' = record w { is_shutdown = true }
  emit wg_wait
  return w'

unfoldable pub get_lock_key : WorkerEngine → Bytes → Bytes
get_lock_key w event_id = w.name ++ (codes ":amazonsqs-broker-lock:" ++ event_id)

-- Name
abbrev pub worker_name : WorkerEngine → Bytes
worker_name w = w.bk.worker_type
