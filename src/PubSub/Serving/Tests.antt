-- ===== src/PubSub/Serving/Tests.antt =====
-- Tests of the Pub/Sub worker's serving at concrete inputs.
use candi_plugin.Base.{◌≤◌, ◌≡◌, refl, true, false, List, inr, [], ◌∷◌, none, some, bytes_eq}
use candi_plugin.Go.Text.{Bytes, codes}
use candi_plugin.Go.Map.{lookup, insert}
use candi_plugin.Candi.Places.{held, occurs}
use candi_plugin.Go.Outcome.{ok}
use candi_plugin.Candi.{WorkerHandler, ServiceModule, module_handlers}
use candi_plugin.PubSub.Broker.{Broker, google_cloud_pubsub}
use candi_plugin.PubSub.Worker.{
  WorkerEngine, Client, new_pubsub_worker, mount_handlers, mount_handler, create_topic,
  ensure_topic, create_subscription, ensure_subscription, must, empty_worker,
}
use candi_plugin.PubSub.Serving.{
  State, begin, arrive, take_place, finish, cancel, hand_over, close, Reach, here, next, Run,
}
use candi_plugin.PubSub.Serving.Draining.{serve-drains}
use candi_plugin.PubSub.Serving.Single.{in_hand, serve-single}

abbrev broker : Broker
broker = record { worker_type = google_cloud_pubsub; client = none; publisher = none }

abbrev paid : WorkerHandler
paid = record {
  pattern = codes "paid";
  handler_funcs = [];
  auto_ack = true;
  disable_trace = false;
  qos = none;
}

abbrev service : List ServiceModule
service = record { name = codes "order"; worker_handlers = some (paid ∷ []) } ∷ []

-- A client that has all that it is asked for.
abbrev client : Client
client = record {
  topic_exists = λ log. inr true;
  create_topic_error = λ log. none;
  subscription_exists = λ log. inr true;
  create_subscription_error = λ log. none;
}

abbrev engine : WorkerEngine
engine = record {
  err = none;
  semaphore = (codes "paid", tt) ∷ [];
  bk = broker;
  subscribers = (codes "paid", codes "shop_paid") ∷ [];
  handlers = (codes "paid", paid) ∷ [];
}

-- The client is closed, while one message is handled and another waits for its place.
abbrev closed : State
closed = record {
  subscribers = (codes "paid", codes "shop_paid") ∷ [];
  semaphore = (codes "paid", 1) ∷ [];
  waiting = codes "paid" ∷ [];
  jobs = codes "paid" ∷ [];
  is_serving = false;
  is_cancelled = true;
  is_closed = true;
}

closed_reached : Reach (begin engine) closed
unfolding lookup insert
closed_reached =
    next
      (next
        (next
          (next
            (next (next here (arrive (codes "paid") (codes "shop_paid") refl refl))
              (arrive (codes "paid") (codes "shop_paid") refl refl))
            (take_place (codes "paid") [] (codes "paid" ∷ []) refl refl))
          cancel)
        (hand_over refl refl))
      (close refl)

-- The second is handled after the first.
abbrev late : State
late = record closed { waiting = [] }

late_reached : Reach closed late
unfolding lookup insert
late_reached =
    next (next here (finish (codes "paid") [] [] refl)) (take_place (codes "paid") [] [] refl refl)

serve-single_example :
    ((d : Bytes) → (occurs d closed.jobs ≡ held d closed.semaphore) × (occurs d closed.jobs ≤ 1))
    × (closed.is_closed ≡ true → (closed.is_serving ≡ false) × (closed.is_cancelled ≡ true))
    × (closed.is_cancelled ≡ true → (late.is_cancelled ≡ true) × (in_hand late ≤ in_hand closed))
serve-single_example = serve-single engine closed late closed_reached late_reached

made : (new_pubsub_worker service (some broker) client (codes "shop") []).0 ≡ ok engine
unfolding new_pubsub_worker mount_handlers mount_handler create_topic ensure_topic
    create_subscription ensure_subscription must module_handlers empty_worker insert
made = refl

serve-drains_example :
    (u : State) × Run closed u
    × (u.jobs ≡ [])
    × (u.waiting ≡ [])
    × ((d : Bytes) → held d u.semaphore ≡ 0)
serve-drains_example =
    serve-drains service broker client (codes "shop") [] engine closed made closed_reached
