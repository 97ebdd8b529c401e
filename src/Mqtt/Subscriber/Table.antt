-- ===== src/Mqtt/Subscriber/Table.antt =====
-- NewMQTTSubscriber of mqtt-broker/subscriber.go against its abstract view: its router is a table from
-- patterns to handlers, written once for each handler, and its subscriptions are a list of filters.
use candi_plugin.Base.{◌≡◌, refl, sym, ap, subst, fun_ext, ◌∙◌, List, [], ◌∷◌, ◌++◌, map, some, All}
use mathlib.Core.List.{append_assoc, append-nil}
use candi_plugin.Go.Text.{Bytes, join}
use candi_plugin.Go.Outcome.{ok, ok-inj, ok-cases}
use candi_plugin.Candi.{WorkerHandler, ServiceModule, module_handlers, or_default}
use candi_plugin.Mqtt.Router.{Node, no_handler, add_route}
use candi_plugin.Mqtt.Router.Segments.{Segment, handler_at, filter_levels, IsPlain, IsClean}
use candi_plugin.Mqtt.Router.Adding.{handler_at-static}
use candi_plugin.Mqtt.Router.Filters.{add_route-filter}
use candi_plugin.Mqtt.Router.Refines.{Added}
use candi_plugin.Mqtt.Broker.{Broker}
use candi_plugin.Mqtt.Subscriber.{
  WorkerEngine, HandlerConfig, Options, mount_handler, mount_handlers, new_mqtt_subscriber,
}
use candi_plugin.Mqtt.Subscriber.Routing.{pattern_of, Segments-discrete, add_route-Added}

-- A table, and a table written at one pattern.
abbrev pub Table : Type 0
Table = List Segment → WorkerHandler

abbrev pub write_at : List Segment → WorkerHandler → Table → Table
write_at p h table q = elim (Segments-discrete q p) [ yes e ↦ h | no ne ↦ table q ]

abbrev pub table_of : List WorkerHandler → Table → Table
table_of [] table = table
table_of (h ∷ hs) table = table_of hs (write_at (pattern_of h) h table)

abbrev pub empty_table : Table
empty_table q = no_handler

-- The table that a router stands for.
abbrev pub read_table : Node → Table
read_table root q = handler_at q root

-- What the worker subscribes to for a handler.
abbrev pub config_of : Broker → WorkerHandler → HandlerConfig
config_of broker h = record {
  topic = join b'/' (filter_levels (pattern_of h));
  qos = or_default h.qos broker.subscriber_qos;
}

Added-write :
    (h : WorkerHandler) (root root' : Node)
    → Added (pattern_of h) h root root'
    → read_table root' ≡ write_at (pattern_of h) h (read_table root)
Added-write h root root' a = fun_ext λ q.
    elim (Segments-discrete q (pattern_of h))
      as (λ d. handler_at q root' ≡ elim d [ yes e ↦ h | no ne ↦ handler_at q root ]) [
        | yes e ↦ ap (λ r. handler_at r root') e ∙ a.self
        | no ne ↦ a.others q ne
      ]

-- What mounting handlers makes of a worker.
pub record Refined (hs : List WorkerHandler) (w w' : WorkerEngine) : Type 0 where
  pub table : read_table w'.router ≡ table_of hs (read_table w.router)
  pub configs : w'.handlers ≡ w.handlers ++ map (config_of w.broker) hs
  pub broker : w'.broker ≡ w.broker
  pub err : w'.err ≡ w.err

mounted_with : WorkerHandler → Node × Bytes → WorkerEngine → WorkerEngine
mounted_with h r w = record w {
  router = r.0;
  handlers =
      w.handlers ++ record { topic = r.1; qos = or_default h.qos w.broker.subscriber_qos } ∷ [];
  semaphore = w.semaphore ++ h.pattern ∷ [];
}

Refined-cons :
    (h : WorkerHandler) (hs : List WorkerHandler) (r : Node × Bytes) (w w' : WorkerEngine)
    → read_table r.0 ≡ write_at (pattern_of h) h (read_table w.router)
    → r.1 ≡ join b'/' (filter_levels (pattern_of h))
    → Refined hs (mounted_with h r w) w'
    → Refined (h ∷ hs) w w'
unfolding mounted_with
Refined-cons h hs r w w' written filter rest = record {
  table = rest.table ∙ ap (table_of hs) written;
  configs =
      rest.configs
      ∙ append_assoc w.handlers _ (map (config_of w.broker) hs)
      ∙ ap
          (λ t.
            w.handlers
            ++ record { topic = t; qos = or_default h.qos w.broker.subscriber_qos }
              ∷ map (config_of w.broker) hs)
          filter;
  broker = rest.broker;
  err = rest.err;
}

pub mount_handlers-Refined :
    (hs : List WorkerHandler) (w w' : WorkerEngine)
    → All (λ h. All IsPlain (pattern_of h)) hs
    → IsClean w.router
    → mount_handlers hs w ≡ ok w'
    → Refined hs w w'
unfolding mount_handlers mount_handler mounted_with
mount_handlers-Refined [] w w' plain clean e =
    subst (Refined [] w) (ok-inj e)
      (record { table = refl; configs = sym (append-nil w.handlers); broker = refl; err = refl })
mount_handlers-Refined (h ∷ hs) w w' plain clean e =
    let (v, one, rest) = ok-cases (mount_handler h w) _ e in
    let (r, added, built) = ok-cases (add_route h.pattern h w.router) _ one in
    let a = add_route-Added h w.router r.0 r.1 plain.0 clean added in
    let there = subst (λ x. mount_handlers hs x ≡ ok w') (sym (ok-inj built)) rest in
    Refined-cons h hs r w w' (Added-write h w.router r.0 a)
      (add_route-filter h.pattern h w.router r.0 r.1 plain.0 added)
      (mount_handlers-Refined hs (mounted_with h r w) w' plain.1 a.clean there)

-- Where NewMQTTSubscriber succeeds on patterns with no empty segment, its router stands for the table
-- that is written at the pattern of each handler of the service in turn, empty before; and the worker
-- subscribes to the topic filters of the patterns in order, each with its handler's quality of service
-- or else the broker's.
pub new_mqtt_subscriber_refines :
    (modules : List ServiceModule) (broker : Broker) (opts : List (Options → Options))
    (w : WorkerEngine)
    → All (λ h. All IsPlain (pattern_of h)) (module_handlers modules)
    → new_mqtt_subscriber modules (some broker) opts ≡ ok w
    → (read_table w.router ≡ table_of (module_handlers modules) empty_table)
      × (w.handlers ≡ map (config_of broker) (module_handlers modules))
unfolding new_mqtt_subscriber
new_mqtt_subscriber_refines modules broker opts w plain made =
    let r = mount_handlers-Refined (module_handlers modules) _ w plain (tt, tt) made in
    (
      r.table ∙ ap (table_of (module_handlers modules)) (fun_ext λ q. handler_at-static q []),
      r.configs,
    )
