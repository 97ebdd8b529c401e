-- ===== src/PubSub/Worker/Tests.antt =====
-- Tests of the Pub/Sub worker, and its theorems at concrete inputs.
use candi_plugin.Base.{◌≡◌, refl, true, false, List, [], ◌∷◌, none, some, inr, bytes_eq}
use candi_plugin.Go.Text.{Bytes, codes}
use candi_plugin.Go.Map.{lookup, insert, last_value}
use candi_plugin.Go.Outcome.{ok, panics}
use candi_plugin.Candi.{WorkerHandler, HandlerFunc, ServiceModule, module_handlers, finish}
use candi_plugin.PubSub.Broker.{Broker, google_cloud_pubsub}
use candi_plugin.PubSub.Worker.{
  WorkerEngine, Client, Message, Finish, new_pubsub_worker, mount_handlers, mount_handler,
  create_topic, ensure_topic, create_subscription, ensure_subscription, must, empty_worker,
  process_message, or_no_handler,
}
use candi_plugin.Candi.{
  Attributes, PublisherArgument, write, set_key, set_header, start_trace, skip_trace, received,
}
use candi_plugin.Candi.Events.{positions, inputs}
use candi_plugin.Candi.Tracing.{same, end}
use candi_plugin.PubSub.Broker.{publish_message, copy_header}
use candi_plugin.PubSub.EndToEnd.{published, publish-received}
use candi_plugin.PubSub.Worker.Delivery.{Finishes, Finished, process_message-Finished}
use candi_plugin.PubSub.Worker.Mounting.{added, new_pubsub_worker-last}

abbrev crash : HandlerFunc
crash log = panics (codes "nil pointer")

abbrev mounted : Bytes → HandlerFunc → WorkerHandler
mounted pattern f = record {
  pattern = pattern;
  handler_funcs = f ∷ [];
  auto_ack = true;
  disable_trace = true;
  qos = none;
}

abbrev service : List ServiceModule
service =
    record {
      name = codes "order";
      worker_handlers =
          some (mounted (codes "paid") (λ log. ok none) ∷ mounted (codes "paid") crash ∷ []);
    }
    ∷ []

abbrev broker : Broker
broker = record {
  worker_type = google_cloud_pubsub;
  client = some (codes "shop");
  publisher = none;
}

-- A client that has nothing yet.
abbrev bare : Client
bare = record {
  topic_exists = λ log. inr false;
  create_topic_error = λ log. none;
  subscription_exists = λ log. inr false;
  create_subscription_error = λ log. none;
}

abbrev engine : WorkerEngine
engine =
    added (codes "shop") (mounted (codes "paid") crash)
      (added (codes "shop") (mounted (codes "paid") (λ log. ok none)) (empty_worker broker))

made : (new_pubsub_worker service (some broker) bare (codes "shop") []).0 ≡ ok engine
unfolding new_pubsub_worker mount_handlers mount_handler create_topic ensure_topic
    create_subscription ensure_subscription must module_handlers
made = refl

new_pubsub_worker-last_example :
    (lookup (codes "paid") engine.handlers ≡ some (mounted (codes "paid") crash))
    × (lookup (codes "paid") engine.subscribers ≡ some (codes "shop_paid"))
unfolding module_handlers
new_pubsub_worker-last_example =
    new_pubsub_worker-last service broker bare (codes "shop") [] engine (codes "paid") made

-- A tracer that recovers, runs the function and ends the trace.
abbrev tracer_finish : Finish
tracer_finish o outcome log = ((o.with_func log).0, finish none ∷ (o.with_func log).1)

tracer-Finishes : Finishes tracer_finish
tracer-Finishes = record {
  finishes = λ o outcome log e. record {
    called = log;
    before = 0;
    behind = 1;
    leads = same;
    returns = λ r. r;
    follows = λ r. end none same;
    once = refl;
  };
}

message : Message
message = record { id = codes "1"; data_bytes = codes "7"; attributes = [] }

runs : engine.err ≡ none
unfolding empty_worker
runs = refl

process_message-Finished_example :
    Finished 1
      (mounted (codes "paid") crash)
      []
      (process_message tracer_finish engine (codes "paid") message [])
unfolding empty_worker lookup insert or_no_handler
process_message-Finished_example =
    process_message-Finished tracer_finish tracer-Finishes engine (codes "paid") message [] runs

abbrev order_paid : PublisherArgument
order_paid = record {
  topic = codes "paid";
  key = [];
  message = [];
  data_bytes = codes "7";
  header_qos = none;
  header_retain = none;
  header = (codes "shop", codes "oslo") ∷ [];
}

abbrev inject_trace : Attributes → Attributes
inject_trace m = (codes "trace", codes "t1") ∷ m

abbrev delivered : Message
delivered = record {
  id = codes "1";
  data_bytes = codes "7";
  attributes = (codes "trace", codes "t1") ∷ (codes "shop", codes "oslo") ∷ [];
}

order_sent :
    published (publish_message inject_trace (λ l. none) order_paid []).1
    ≡ (codes "paid", delivered.data_bytes, delivered.attributes) ∷ []
unfolding publish_message copy_header insert
order_sent = refl

publish-received_example :
    let r = process_message tracer_finish engine (codes "paid") delivered [] in
    (positions r.1 ≡ 0 ∷ [])
    × (inputs r.1
        ≡ write (codes "7")
          ∷ set_key (codes "1")
          ∷ set_header delivered.attributes
          ∷ start_trace (skip_trace received) (codes "GCPPubSubConsumer") delivered.attributes
          ∷ [])
    × ((key : Bytes)
        → lookup key delivered.attributes
          ≡ last_value key order_paid.header (lookup key (inject_trace [])))
    × Finished 1 (mounted (codes "paid") crash) [] r
unfolding module_handlers
publish-received_example =
    publish-received inject_trace (λ l. none) order_paid service broker bare (codes "shop") engine
      (mounted (codes "paid") crash) tracer_finish delivered (panics (codes "nil pointer") ∷ [])
      made refl tracer-Finishes refl order_sent
