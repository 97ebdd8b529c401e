-- ===== src/Mqtt/Subscriber/Tests.antt =====
-- Tests of the router and the subscriber, and the theorems at concrete inputs.
use candi_plugin.Base.{◌≡◌, refl, ap, All, true, false, List, [], ◌∷◌, map, none, some, inl}
use candi_plugin.Go.Text.{Bytes, codes, trim_slash, trim_space, index}
use candi_plugin.Go.Outcome.{Outcome, ok, panics}
use candi_plugin.Go.Map
use candi_plugin.Candi.{WorkerHandler, HandlerFunc, ServiceModule, module_handlers}
use candi_plugin.Mqtt.Broker.{default_broker}
use candi_plugin.Mqtt.Router.{
  Node, new_route_node, has_funcs, no_handler, match, add_route, add_loop, next_path, insert_child,
  insert_new, find_child, replace_child, new_child, normal_piece, set_handler, match_loop,
  next_route,
}
use candi_plugin.Mqtt.Router.Segments.{levels, Matches, bind, segment, IsPlain}
use candi_plugin.Candi.Events.{count}
use candi_plugin.Mqtt.Subscriber.{
  WorkerEngine, get_default_option, mount_handlers, mount_handler, apply_options, Message,
  new_mqtt_subscriber, process_message,
}
use candi_plugin.Mqtt.Router.Matching.{Unshadowed}
use candi_plugin.Mqtt.Router.{node_children}
use candi_plugin.Mqtt.Router.Segments.{param, lit}
use candi_plugin.Mqtt.Subscriber.EndToEnd.{headers, errors_set, ended, process_message-routed}
use candi_plugin.Candi.Events.{is_ack, positions}
use candi_plugin.Base.{subst, Option}
use candi_plugin.Mqtt.Subscriber.Delivery.{Handled, process_message-Handled}
use candi_plugin.Mqtt.Subscriber.Table.{
  read_table, table_of, empty_table, config_of, new_mqtt_subscriber_refines,
}
use candi_plugin.Mqtt.Subscriber.Routing.{match-IsRegistered, In, pattern_of, levels_of}

abbrev succeed : HandlerFunc
succeed log = ok none

abbrev fail : HandlerFunc
fail log = ok (some (codes "failed"))

abbrev mounted : Bytes → WorkerHandler
mounted pattern = record {
  pattern = pattern;
  handler_funcs = fail ∷ succeed ∷ [];
  auto_ack = true;
  disable_trace = false;
  qos = some 1;
}

abbrev by_id : WorkerHandler
by_id = mounted (codes "/user/:id/status")

abbrev all_users : WorkerHandler
all_users = mounted (codes "user/all")

abbrev service : List ServiceModule
service =
    record { name = codes "user"; worker_handlers = some (by_id ∷ all_users ∷ []) }
    ∷ record { name = codes "other"; worker_handlers = none }
    ∷ []

abbrev engine_of : Outcome WorkerEngine → WorkerEngine
engine_of (ok w) = w
engine_of (panics v) = record {
  err = some v;
  semaphore = [];
  handlers = [];
  broker = default_broker;
  opt = get_default_option;
  router = new_route_node;
}

engine : WorkerEngine
unfolding new_mqtt_subscriber mount_handlers mount_handler module_handlers apply_options add_route
    add_loop trim_slash next_path index insert_child insert_new find_child replace_child new_child
    trim_space normal_piece set_handler
engine = engine_of (new_mqtt_subscriber service (some default_broker) [])

made : new_mqtt_subscriber service (some default_broker) [] ≡ ok engine
unfolding engine
made = refl

engine_runs : engine.err ≡ none
unfolding engine
engine_runs = refl

abbrev route_of : Outcome (Node × Bytes) → Node × Bytes
route_of (ok r) = r
route_of (panics v) = (new_route_node, v)

first_added :
    add_route (codes "/user/:id/status") by_id new_route_node
    ≡ ok (route_of (add_route (codes "/user/:id/status") by_id new_route_node))
unfolding engine
first_added = refl

topics_subscribed :
    map (λ h. h.topic) engine.handlers ≡ codes "user/+/status" ∷ codes "user/all" ∷ []
unfolding engine
topics_subscribed = refl

-- A topic is taken apart where its pattern has a parameter.
routed : match (codes "user/7/status") engine.router ≡ (by_id, (codes "id", codes "7") ∷ [])
unfolding engine match match_loop next_route Map.insert
routed = refl

-- The static child for "all" shadows the parameter: the topic is subscribed to by "user/+/status",
-- and no handler answers it.
shadowed : match (codes "user/all/status") engine.router ≡ (no_handler, [])
unfolding engine match match_loop next_route Map.insert
shadowed = refl

plain : All (λ h. All IsPlain (pattern_of h)) (module_handlers service)
unfolding module_handlers segment levels trim_slash trim_space
plain = (((λ e. cc), (tt, ((λ e. cc), tt))), (((λ e. cc), ((λ e. cc), tt)), tt))

match-IsRegistered_example :
    (h : WorkerHandler) × In h (module_handlers service)
    × Matches (pattern_of h) (levels_of (codes "user/7/status"))
    × (match (codes "user/7/status") engine.router
        ≡ (h, bind (pattern_of h) (levels_of (codes "user/7/status")) []))
match-IsRegistered_example =
    match-IsRegistered service default_broker [] engine plain made (codes "user/7/status")
      (ap (λ r. has_funcs r.0) routed)

abbrev status_message : Message
status_message = record { topic = codes "user/7/status"; payload = codes "on"; message_id = 12 }

process_message-Handled_example :
    Handled
      (match (codes "user/7/status") engine.router).0.auto_ack
      []
      (process_message engine status_message [])
process_message-Handled_example = process_message-Handled engine status_message [] engine_runs

abbrev IsUncovered : Node → Type 0
IsUncovered =
    Unshadowed (param (codes "id") ∷ lit (codes "status") ∷ []) (codes "7" ∷ codes "status" ∷ [])

abbrev or_leaf : Option Node → Node
or_leaf none = new_route_node
or_leaf (some n) = n

open_at :
    (c : Node) → find_child (node_children engine.router) (codes "user") ≡ some c → IsUncovered c
unfolding engine new_mqtt_subscriber mount_handlers mount_handler module_handlers apply_options
    add_route add_loop trim_slash next_path index insert_child insert_new find_child replace_child
    new_child trim_space normal_piece set_handler
open_at c e =
    let only : or_leaf (find_child (node_children engine.router) (codes "user")) ≡ c =
      ap or_leaf e in
    subst IsUncovered only (refl, (λ d q c' e'. tt))

process_message-routed_example :
    let r = process_message engine status_message [] in
    (r.0 ≡ ok tt)
    × (positions r.1 ≡ 1 ∷ 0 ∷ [])
    × (headers r.1 ≡ ((codes "id", codes "7") ∷ []) ∷ [])
    × (errors_set r.1 ≡ codes "failed" ∷ [])
    × (count is_ack r.1 ≡ 1)
    × (ended r.1 ≡ none ∷ [])
unfolding module_handlers segment levels trim_slash trim_space Map.insert
process_message-routed_example =
    process_message-routed service default_broker [] engine by_id
      (ok (some (codes "failed")) ∷ ok none ∷ []) status_message plain made (inl refl) refl
      (refl, (refl, tt)) (λ c e. open_at c e) refl

new_mqtt_subscriber_refines_example :
    (read_table engine.router ≡ table_of (module_handlers service) empty_table)
    × (engine.handlers ≡ map (config_of default_broker) (module_handlers service))
new_mqtt_subscriber_refines_example =
    new_mqtt_subscriber_refines service default_broker [] engine plain made
