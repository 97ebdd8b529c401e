-- ===== src/Mqtt/Subscriber.antt =====
-- mqtt-broker/subscriber.go and option.go: the worker that subscribes to the topics of the service's
-- handlers, and runs the handlers on each message.
pub mod Delivery
pub mod Routing
pub mod Table
pub mod EndToEnd
mod Tests
use candi_plugin.Base.{
  ℕ, zero, suc, ◌+◌, Bool, true, false, not, List, [], ◌∷◌, ◌++◌, Option, none, some, ◌==◌,
  bytes_eq, number_eq, nat_eq, if◌then◌else◌,
}
use Prim.Native.Nat.{◌/◌, ◌%◌}
use candi_plugin.Go.Text.{Bytes, codes, itoa}
use candi_plugin.Go.Outcome
use candi_plugin.Go.Outcome.{Outcome, ok, panics}
use candi_plugin.Go.Act.{Act, ◌>>=◌, ◌>>◌, return, emit, call, deferred}
use candi_plugin.Candi.{
  Event, Error, Context, Attributes, HandlerFunc, WorkerHandler, ServiceModule, root, skip_trace,
  traced, text, flag, attrs, start_trace, set_tag, trace_log, finish, set_context, set_worker_type,
  set_handler_route, set_key, set_header, write, set_error, handle, ack, wg_add, wg_done, subscribe,
  wg_wait, cancel, shutdown_send, shutdown_receive, disconnect, console, or_default,
  module_handlers,
}
use candi_plugin.Mqtt.Broker.{Broker, mqtt_broker}
use candi_plugin.Mqtt.Router
use candi_plugin.Mqtt.Router.{Node, new_route_node, add_route}

pub record Options : Type 0 where
  pub max_goroutines : ℕ
  pub debug_mode : Bool

pub get_default_option : Options
get_default_option = record { max_goroutines = 10; debug_mode = true }

pub set_max_goroutines : ℕ → Options → Options
set_max_goroutines n o = record o { max_goroutines = n }

pub set_debug_mode : Bool → Options → Options
set_debug_mode b o = record o { debug_mode = b }

pub record HandlerConfig : Type 0 where
  pub topic : Bytes
  pub qos : ℕ

-- workerEngine. `semaphore` has the keys of the map of that name; `err` is what ctx.Err() returns.
pub record WorkerEngine : Type 0 where
  pub err : Option Error
  pub semaphore : List Bytes
  pub handlers : List HandlerConfig
  pub broker : Broker
  pub opt : Options
  pub router : Node

-- The body of the innermost loop of NewMQTTSubscriber, for one handler.
pub mount_handler : WorkerHandler → WorkerEngine → Outcome WorkerEngine
mount_handler h w = Outcome.◌>>=◌ (add_route h.pattern h w.router) (λ r. ok (record w {
  router = r.0;
  handlers =
      w.handlers ++ record { topic = r.1; qos = or_default h.qos w.broker.subscriber_qos } ∷ [];
  semaphore = w.semaphore ++ h.pattern ∷ [];
}))

pub mount_handlers : List WorkerHandler → WorkerEngine → Outcome WorkerEngine
mount_handlers [] w = ok w
mount_handlers (h ∷ hs) w = Outcome.◌>>=◌ (mount_handler h w) (mount_handlers hs)

pub apply_options : List (Options → Options) → Options → Options
apply_options [] o = o
apply_options (f ∷ fs) o = apply_options fs (f o)

-- NewMQTTSubscriber; the broker is `none` if the type assertion on it fails.
pub new_mqtt_subscriber :
    List ServiceModule → Option Broker → List (Options → Options) → Outcome WorkerEngine
unfolding get_default_option
new_mqtt_subscriber modules none opts =
    panics
      (codes "Missing MQTT broker, make sure MQTT has been registered to broker in service config")
new_mqtt_subscriber modules (some broker) opts = mount_handlers (module_handlers modules) (record {
  err = none;
  semaphore = [];
  handlers = [];
  broker = broker;
  opt = apply_options opts get_default_option;
  router = new_route_node;
})

pub subscribe_all : List HandlerConfig → Act Event (Unit {0})
subscribe_all [] = return tt
subscribe_all (h ∷ hs) = do emit (subscribe h.topic h.qos); subscribe_all hs

pub serve : WorkerEngine → Act Event (Unit {0})
serve w = do subscribe_all w.handlers; emit shutdown_receive

pub on_connect : WorkerEngine → Act Event (Unit {0})
on_connect w = subscribe_all w.handlers

pub shutdown : WorkerEngine → Act Event (Unit {0})
shutdown w = do emit wg_wait; emit cancel; emit shutdown_send; emit (disconnect 500)

-- name != MQTTBroker
pub is_renamed : Bytes → Bool
is_renamed name = not (name == mqtt_broker)

pub get_worker_type_log : Bytes → Bytes
get_worker_type_log name =
    if is_renamed name then codes " [worker_type: " ++ (name ++ codes "]") else []

-- mqtt.Message: what the code reads of it.
pub record Message : Type 0 where
  pub topic : Bytes
  pub payload : Bytes
  pub message_id : ℕ

when : Bool → Act Event (Unit {0}) → Act Event (Unit {0})
when b m = if b then m else return tt

report : Option Error → Act Event (Unit {0})
report none = return tt
report (some e) = emit (set_error e)

-- The loop over HandlerFuncs, at a position of it; the last argument is the variable err.
pub run_handlers : ℕ → List HandlerFunc → Option Error → Act Event (Option Error)
unfolding report
run_handlers i [] err = return err
run_handlers i (f ∷ fs) err = do emit (handle i); r ← call f; report r; run_handlers (suc i) fs r

-- processMessage from its deferred function to the loop over the handler functions.
pub process_setup : WorkerEngine → Message → Context → Attributes → Act Event (Unit {0})
unfolding when
process_setup w m ctx params = do
  when (is_renamed w.broker.worker_type)
      (emit (set_tag (codes "worker_type") (text w.broker.worker_type)))
  emit (set_tag (codes "topic") (text m.topic))
  emit (trace_log (codes "params") (attrs params))
  emit (trace_log (codes "body") (text m.payload))
  when w.opt.debug_mode (emit (console (get_worker_type_log w.broker.worker_type ∷ m.topic ∷ [])))
  emit (set_context (traced ctx))
  emit (set_worker_type w.broker.worker_type)
  emit (set_handler_route m.topic)
  emit (set_key (itoa m.message_id))
  emit (write m.payload)
  emit (set_header params)

-- processMessage between its deferred function and its end.
pub process_body :
    WorkerEngine → Message → Context → WorkerHandler → Attributes → Act Event (Option Error)
process_body w m ctx h params = do process_setup w m ctx params; run_handlers 0 h.handler_funcs none

-- The recover of the deferred function: the value of err afterwards.
recover_error : Outcome (Option Error) → Act Event (Option Error)
recover_error (ok err) = return err
recover_error (panics v) = do emit (set_tag (codes "panic") (flag true)); return (some v)

-- The deferred function of processMessage.
pub process_end : WorkerHandler → Outcome (Option Error) → Act Event (Unit {0})
unfolding recover_error when
process_end h outcome = do
  err ← recover_error outcome
  when h.auto_ack (emit ack)
  emit (finish err)
  emit wg_done

-- processMessage after the router has chosen a handler.
process_matched : WorkerEngine → Message → WorkerHandler × Attributes → Act Event (Unit {0})
process_matched w m (h, params) = do
  emit wg_add
  let ctx = if h.disable_trace then skip_trace root else root
  emit (start_trace ctx (codes "MQTTSubscriber") [])
  deferred (process_body w m ctx h params) (process_end h)

pub process_message : WorkerEngine → Message → Act Event (Unit {0})
unfolding process_matched
process_message w m = elim w.err [
  | some e ↦ emit (console ((codes "mqtt_subscriber > ctx root err: " ++ e) ∷ []))
  | none ↦ process_matched w m (Router.match m.topic w.router)
]

-- Name
abbrev pub worker_name : WorkerEngine → Bytes
worker_name w = w.broker.worker_type
