-- ===== src/Stomp/Worker/Tests.antt =====
-- Tests of the STOMP worker, and its theorems at concrete inputs.
use candi_plugin.Base.{◌≡◌, refl, true, false, List, [], ◌∷◌, none, some, ap, length, arith}
use candi_plugin.Go.Text.{Bytes, codes}
use candi_plugin.Go.Map.{lookup, insert, lookup-insert, last_value}
use candi_plugin.Go.Outcome.{ok, panics}
use candi_plugin.Candi.{WorkerHandler, HandlerFunc, ServiceModule, module_handlers}
use candi_plugin.Stomp.Broker.{Broker, Options, stomp_broker}
use candi_plugin.Stomp.Worker.{
  WorkerEngine, Client, Locker, Message, new_stomp_worker, mount_handlers, mount_handler,
  refuse_duplicate, refuse_failed, apply_options, empty_worker, process_message, or_no_handler,
}
use candi_plugin.Candi.{
  Attributes, PublisherArgument, write, set_key, set_header, start_trace, root,
}
use candi_plugin.Candi.Events.{positions, inputs}
use candi_plugin.Stomp.Worker.{copy_header}
use candi_plugin.Base.{bytes_eq, ==_iff}
use candi_plugin.Stomp.Broker.{publish_message, stomp_event_id}
use candi_plugin.Stomp.EndToEnd.{Frame, frames, IsDelivered, frame-received}
use candi_plugin.Stomp.Worker.Delivery.{Settled, process_message-Settled}
use candi_plugin.Stomp.Worker.Mounting.{
  Mounts, new_stomp_worker-Mounts, new_stomp_worker_returns, added,
}

abbrev crash : HandlerFunc
crash log = panics (codes "nil pointer")

abbrev mounted : Bytes → WorkerHandler
mounted pattern = record {
  pattern = pattern;
  handler_funcs = crash ∷ [];
  auto_ack = true;
  disable_trace = true;
  qos = none;
}

abbrev service : List ServiceModule
service =
    record {
      name = codes "order";
      worker_handlers = some (mounted (codes "paid") ∷ mounted (codes "shipped") ∷ []);
    }
    ∷ record { name = codes "other"; worker_handlers = none }
    ∷ []

abbrev broker : Broker
broker = record { worker_type = stomp_broker; conn = codes "localhost"; publisher = none }

abbrev free : Options Locker
free = record { locker = λ log. false; debug_mode = true }

abbrev up : Client
up topic log = none

abbrev engine : WorkerEngine
engine =
    added (mounted (codes "shipped"))
      (added (mounted (codes "paid")) (empty_worker (codes "shop") broker free))

made : (new_stomp_worker (codes "shop") service (some broker) up [] free []).0 ≡ ok engine
unfolding new_stomp_worker mount_handlers mount_handler refuse_duplicate refuse_failed
    module_handlers lookup insert apply_options empty_worker
made = refl

new_stomp_worker-Mounts_example :
    Mounts
      (module_handlers service)
      (empty_worker (codes "shop") broker (apply_options [] free))
      engine
new_stomp_worker-Mounts_example =
    new_stomp_worker-Mounts (codes "shop") service broker up [] free [] engine made

new_stomp_worker_returns_example :
    (w : WorkerEngine) × ((new_stomp_worker (codes "shop") service (some broker) up [] free []).0
      ≡ ok w)
unfolding module_handlers
new_stomp_worker_returns_example =
    new_stomp_worker_returns (codes "shop") service broker up [] free [] (λ topic l. refl)
      (((λ e. let n = ap length e in omega arith), tt), (tt, tt))

abbrev paid : Message
paid = record {
  destination = codes "paid";
  content_type = codes "text/plain";
  body = codes "7";
  event_id = codes "e1";
  header = (codes "stompEventID", codes "e1") ∷ [];
  server = codes "localhost";
}

runs : engine.err ≡ none
unfolding empty_worker
runs = refl

process_message-Settled_example : Settled 1 1 1 [] (process_message engine paid [])
unfolding empty_worker lookup insert or_no_handler
process_message-Settled_example = process_message-Settled engine paid [] runs

abbrev order_paid : PublisherArgument
order_paid = record {
  topic = codes "paid";
  key = [];
  message = [];
  data_bytes = codes "7";
  header_qos = none;
  header_retain = none;
  header = [];
}

abbrev inject_trace : Attributes → Attributes
inject_trace m = insert (codes "trace") (codes "t1") m

abbrev order_frame : Frame
order_frame = record {
  destination = codes "paid";
  content_type = codes "text/plain";
  body = codes "7";
  header = (stomp_event_id, codes "e1") ∷ (codes "trace", codes "t1") ∷ [];
}

abbrev received : Message
received = record {
  destination = codes "paid";
  content_type = codes "text/plain";
  body = codes "7";
  event_id = codes "e1";
  header =
      (codes "id", codes "9") ∷ (stomp_event_id, codes "e1") ∷ (codes "trace", codes "t1") ∷ [];
  server = codes "localhost";
}

order_sent :
    frames (publish_message none (codes "e1") inject_trace (λ l. none) order_paid []).1
    ≡ order_frame ∷ []
unfolding publish_message insert
order_sent = refl

kept :
    (key value : Bytes)
    → lookup key order_frame.header ≡ some value
    → last_value key received.header none ≡ some value
unfolding lookup
kept key value e =
    ground
      (arith, e, ==_iff key (codes "id"), ==_iff key stomp_event_id, ==_iff key (codes "trace"))

order-IsDelivered : IsDelivered order_frame received
unfolding lookup
order-IsDelivered = record {
  destination_same = refl;
  content_type_same = refl;
  body_same = refl;
  entries_kept = kept;
  event_id_kept = λ value e. ground (arith, e);
}

injected : (m : Attributes) → lookup stomp_event_id (inject_trace m) ≡ lookup stomp_event_id m
injected m = lookup-insert (codes "trace") stomp_event_id (codes "t1") m

frame-received_example :
    let r = process_message engine received [] in
    let header = copy_header received.header [] in
    (lookup (codes "paid") engine.handlers ≡ some (mounted (codes "paid")))
    × (positions r.1 ≡ 0 ∷ [])
    × (inputs r.1
        ≡ write (codes "7")
          ∷ set_key (codes "e1")
          ∷ set_header header
          ∷ start_trace root (codes "STOMPWorker") header
          ∷ [])
    × ((key value : Bytes)
        → lookup key (inject_trace (insert stomp_event_id (codes "e1") [])) ≡ some value
        → lookup key header ≡ some value)
    × Settled 1 1 1 [] r
unfolding module_handlers apply_options empty_worker
frame-received_example =
    frame-received none b'e' (codes "1") inject_trace (λ l. none) order_paid (codes "shop") service
      broker up [] free engine [] (mounted (codes "shipped") ∷ []) (mounted (codes "paid"))
      order_frame received (panics (codes "nil pointer") ∷ []) made refl refl injected order_sent
      order-IsDelivered refl
