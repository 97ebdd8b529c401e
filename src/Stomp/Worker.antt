-- ===== src/Stomp/Worker.antt =====
-- stomp-broker/consumer.go: the worker's construction and what it does with a message.
pub mod Delivery
pub mod Inputs
pub mod Mounting
mod Tests
use candi_plugin.Base.{
  ℕ, zero, suc, ◌+◌, Bool, true, false, not, List, [], ◌∷◌, ◌++◌, Option, none, some, ◌==◌,
  bytes_eq, if◌then◌else◌,
}
use candi_plugin.Go.Text.{Bytes, codes}
use candi_plugin.Go.Outcome.{Outcome, ok, panics}
use candi_plugin.Go.Map.{lookup, insert}
use candi_plugin.Go.Act.{Act, ◌>>=◌, ◌>>◌, return, emit, ask, deferred, panic}
use candi_plugin.Candi.{
  Event, Error, Context, Attributes, WorkerHandler, ServiceModule, root, skip_trace, traced, text,
  flag, opaque, start_trace, set_tag, trace_log, trace_error, finish, set_context, set_worker_type,
  set_handler_route, set_key, set_header, write, set_error, ack, wg_add, wg_done, acquire, release,
  is_locked, unlock, subscribe_queue, wg_wait, shutdown_send, console, no_worker_handler,
  module_handlers,
}
use candi_plugin.Candi.Handlers.{when, run_funcs}
use candi_plugin.Stomp.Broker.{Broker, Options, stomp_broker}

-- A Locker answers IsLocked by what was done before.
abbrev pub Locker : Type 0
Locker = List Event → Bool

-- workerEngine. `channels` are the subscriptions, by their topic, `semaphore` how many places of each
-- topic's channel are taken; `err` is what ctx.Err() returns, `name` service.Name().
pub record WorkerEngine : Type 0 where
  pub err : Option Error
  pub name : Bytes
  pub channels : List Bytes
  pub semaphore : List (Bytes × ℕ)
  pub is_shutdown : Bool
  pub opt : Options Locker
  pub bk : Broker
  pub handlers : List (Bytes × WorkerHandler)

unfoldable pub is_renamed : Bytes → Bool
is_renamed name = not (name == stomp_broker)

unfoldable pub get_worker_type_log : Bytes → Bytes
get_worker_type_log name =
    if is_renamed name then codes " [worker_type: " ++ (name ++ codes "]") else []

-- What conn.Subscribe answers for a topic.
abbrev pub Client : Type 0
Client = Bytes → List Event → Option Error

pub duplicate : Bytes → Bytes → Bytes
duplicate worker_type pattern =
    codes "STOMP Worker"
    ++ (get_worker_type_log worker_type
        ++ (codes ": warning, topic "
            ++ (pattern ++ codes " has been used in another module, overwrite handler func")))

pub not_subscribed : Bytes → Bytes → Error → Bytes
not_subscribed worker_type pattern err =
    codes "STOMP"
    ++ (get_worker_type_log worker_type
        ++ (codes ": cannot subscribe to " ++ (pattern ++ (codes ": " ++ err))))

-- The test of `ok`, and of `err`: the panics.
unfoldable pub refuse_duplicate : Bytes → Bytes → Option WorkerHandler → Act Event (Unit {0})
refuse_duplicate worker_type pattern none = return tt
refuse_duplicate worker_type pattern (some h) = panic (duplicate worker_type pattern)

unfoldable pub refuse_failed : Bytes → Bytes → Option Error → Act Event (Unit {0})
refuse_failed worker_type pattern none = return tt
refuse_failed worker_type pattern (some err) = panic (not_subscribed worker_type pattern err)

-- The body of the innermost loop of NewSTOMPWorker, for one handler.
unfoldable pub mount_handler : Client → WorkerHandler → WorkerEngine → Act Event WorkerEngine
mount_handler client h w = do
  refuse_duplicate w.bk.worker_type h.pattern (lookup h.pattern w.handlers)
  emit (subscribe_queue h.pattern)
  err ← ask (client h.pattern)
  refuse_failed w.bk.worker_type h.pattern err
  return (record w {
    handlers = insert h.pattern h w.handlers;
    channels = w.channels ++ h.pattern ∷ [];
    semaphore = insert h.pattern 0 w.semaphore;
  })

unfoldable pub mount_handlers : Client → List WorkerHandler → WorkerEngine → Act Event WorkerEngine
mount_handlers client [] w = return w
mount_handlers client (h ∷ hs) w = do w' ← mount_handler client h w; mount_handlers client hs w'

unfoldable pub apply_options :
    List (Options Locker → Options Locker) → Options Locker → Options Locker
apply_options [] o = o
apply_options (f ∷ fs) o = apply_options fs (f o)

-- The worker before the loop over the modules.
unfoldable pub empty_worker : Bytes → Broker → Options Locker → WorkerEngine
empty_worker name bk opt = record {
  err = none;
  name = name;
  channels = [];
  semaphore = [];
  is_shutdown = false;
  opt = opt;
  bk = bk;
  handlers = [];
}

-- NewSTOMPWorker; the broker is `none` if the type assertion on it fails. The last but one argument
-- is getDefaultOption().
unfoldable pub new_stomp_worker :
    (name : Bytes)
    → List ServiceModule
    → Option Broker
    → Client
    → List (Options Locker → Options Locker)
    → Options Locker
    → Act Event WorkerEngine
new_stomp_worker name modules none client opts default =
    panic (
      codes "Missing STOMP broker, make sure STOMP has been registered to broker in service config")
new_stomp_worker name modules (some bk) client opts default =
    mount_handlers client (module_handlers modules)
      (empty_worker name bk (apply_options opts default))

-- stomp.Message: what the code reads of it. `event_id` is what Header.Get answers for StompEventID,
-- `server` what Conn.Server() answers.
pub record Message : Type 0 where
  pub destination : Bytes
  pub content_type : Bytes
  pub body : Bytes
  pub event_id : Bytes
  pub header : Attributes
  pub server : Bytes

unfoldable pub get_lock_key : WorkerEngine → Bytes → Bytes
get_lock_key w event_id = w.name ++ (codes ":stomp-broker-lock:" ++ event_id)

-- w.handlers[destination]: the zero value where there is none.
unfoldable pub or_no_handler : Option WorkerHandler → WorkerHandler
or_no_handler none = no_worker_handler
or_no_handler (some h) = h

-- The loop that copies the header; of two entries of one key the last stays.
unfoldable pub copy_header : Attributes → Attributes → Attributes
copy_header [] m = m
copy_header (entry ∷ entries) m = copy_header entries (insert entry.0 entry.1 m)

-- What the loop over the handler functions does with an error.
unfoldable pub report : Error → Act Event (Unit {0})
report err = do emit (set_error err); emit (trace_error (some err))

-- processMessage from its last deferred function to the loop over the handler functions.
unfoldable pub process_setup : WorkerEngine → Message → Context → Attributes → Act Event (Unit {0})
process_setup w msg ctx header = do
  when w.opt.debug_mode
      (emit (console (get_worker_type_log w.bk.worker_type ∷ msg.destination ∷ [])))
  when (is_renamed w.bk.worker_type) (emit (set_tag (codes "worker_type") (text w.bk.worker_type)))
  emit (set_tag (codes "broker") (text msg.server))
  emit (set_tag (codes "destination") (text msg.destination))
  emit (set_tag (codes "content-type") (text msg.content_type))
  emit (trace_log (codes "message.body") (text msg.body))
  emit (set_context ctx)
  emit (set_worker_type w.bk.worker_type)
  emit (set_handler_route msg.destination)
  emit (set_header header)
  emit (set_key msg.event_id)
  emit (write msg.body)

-- The recover of the deferred function.
unfoldable pub recover_error : Outcome (Unit {0}) → Act Event (Unit {0})
recover_error (ok u) = return tt
recover_error (panics v) = emit (trace_error (some (codes "panic: " ++ v)))

-- The deferred function that ends the trace.
unfoldable pub process_end :
    WorkerEngine → WorkerHandler → Outcome (Unit {0}) → Act Event (Unit {0})
process_end w h outcome = do
  recover_error outcome
  when h.auto_ack (emit ack)
  emit (console ((w.bk.worker_type ++ codes " > trace_url: ") ∷ []))
  emit (set_tag (codes "trace_id") opaque)
  emit (finish none)

-- processMessage after the lock. The trace is started in the worker's context: the context that
-- DisableTrace marks is not used.
unfoldable pub process_selected : WorkerEngine → Message → WorkerHandler → Act Event (Unit {0})
process_selected w msg h = do
  let marked = if h.disable_trace then skip_trace root else root
  let header = copy_header msg.header []
  emit (start_trace root (codes "STOMPWorker") header)
  deferred (do process_setup w msg (traced root) header; run_funcs report 0 h.handler_funcs)
      (process_end w h)

unfoldable pub unlock_after : Bytes → Outcome (Unit {0}) → Act Event (Unit {0})
unlock_after key (ok u) = emit (unlock key)
unlock_after key (panics v) = do emit (unlock key); panic v

-- processMessage from the test of eventID on; the last two arguments are the event identifier's own
-- test and the handler.
unfoldable pub process_locked : WorkerEngine → Message → WorkerHandler → Bool → Act Event (Unit {0})
process_locked w msg h true = return tt
process_locked w msg h false =
    deferred (process_selected w msg h) (unlock_after (get_lock_key w msg.event_id))

unfoldable pub process_known : WorkerEngine → Message → WorkerHandler → Bytes → Act Event (Unit {0})
process_known w msg h [] = process_selected w msg h
process_known w msg h (c ∷ id) = do
  emit (is_locked (get_lock_key w msg.event_id))
  held ← ask w.opt.locker
  process_locked w msg h held

unfoldable pub process_running : WorkerEngine → Message → Option Error → Act Event (Unit {0})
process_running w msg (some err) =
    emit (console ((w.bk.worker_type ++ (codes " > ctx root err: " ++ err)) ∷ []))
process_running w msg none =
    process_known w msg (or_no_handler (lookup msg.destination w.handlers)) msg.event_id

unfoldable pub process_message : WorkerEngine → Message → Act Event (Unit {0})
process_message w msg = process_running w msg w.err

-- A round of Serve for a message: the send into the topic's semaphore, the test of isShutdown, and
-- the goroutine. Serve ends with the round where the answer is false.
unfoldable pub serve_message : WorkerEngine → Message → Act Event Bool
serve_message w msg = do
  emit (acquire msg.destination)
  if w.is_shutdown then return false else (do
    emit wg_add
    process_message w msg
    emit wg_done
    emit (release msg.destination)
    return true)

-- The jobs that Shutdown counts.
unfoldable pub running_job : List (Bytes × ℕ) → ℕ
running_job [] = 0
running_job (sem ∷ sems) = sem.1 + running_job sems

unfoldable pub shutdown : WorkerEngine → Act Event WorkerEngine
shutdown w = do
  emit shutdown_send
  let w' = record w { is_shutdown = true }
  emit wg_wait
  return w'

-- Name
abbrev pub worker_name : WorkerEngine → Bytes
worker_name w = w.bk.worker_type
