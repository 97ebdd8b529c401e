-- ===== src/Mqtt/Broker.antt =====
-- mqtt-broker/broker.go, publisher.go and const.go: the broker's options, its construction and the
-- publisher. The client is github.com/eclipse/paho.mqtt.golang, whose answers are arguments.
use candi_plugin.Base.{ℕ, Bool, true, false, not, List, [], ◌∷◌, Option, none, some, if◌then◌else◌}
use candi_plugin.Go.Text.{Bytes, codes}
use candi_plugin.Go.Outcome.{Outcome, ok, panics}
use candi_plugin.Go.Act.{Act, ◌>>=◌, ◌>>◌, return, emit, ask}
use candi_plugin.Candi.{
  Event, PublisherArgument, Error, start_span, send_mqtt, end_span, or_default, message_or_data,
  disconnect,
}

abbrev pub mqtt_broker : Bytes
mqtt_broker = codes "mqtt-broker"

-- interfaces.Publisher: one that the service brings, or NewPublisher's.
pub data Publisher : Type 0 where
  custom : Bytes → Publisher
  standard : (qos : ℕ) (retain : Bool) → Publisher

pub record Broker : Type 0 where
  pub worker_type : Bytes
  pub publisher : Option Publisher
  pub subscriber_qos : ℕ
  pub publisher_qos : ℕ
  pub retain : Bool

abbrev pub BrokerOptionFunc : Type 0
BrokerOptionFunc = Broker → Broker

pub broker_set_worker_type : Bytes → BrokerOptionFunc
broker_set_worker_type worker_type bk = record bk { worker_type = worker_type }

pub broker_set_publisher : Publisher → BrokerOptionFunc
broker_set_publisher pub_ bk = record bk { publisher = some pub_ }

pub broker_set_subscriber_qos : ℕ → BrokerOptionFunc
broker_set_subscriber_qos qos bk = record bk { subscriber_qos = qos }

pub broker_set_publisher_qos : ℕ → BrokerOptionFunc
broker_set_publisher_qos qos bk = record bk { publisher_qos = qos }

unfoldable pub broker_set_message_retain : BrokerOptionFunc
broker_set_message_retain bk = record bk { retain = true }

unfoldable pub apply_options : List BrokerOptionFunc → Broker → Broker
apply_options [] bk = bk
apply_options (opt ∷ opts) bk = apply_options opts (opt bk)

unfoldable pub default_broker : Broker
default_broker = record {
  worker_type = mqtt_broker;
  publisher = none;
  subscriber_qos = 2;
  publisher_qos = 2;
  retain = false;
}

unfoldable pub with_publisher : Broker → Broker
with_publisher bk = elim bk.publisher [
  | none ↦ record bk { publisher = some (standard bk.publisher_qos bk.retain) }
  | some p ↦ bk
]

-- NewMQTTBroker; the first argument is the error of the connection's token.
unfoldable pub new_mqtt_broker : Option Error → List BrokerOptionFunc → Outcome Broker
unfolding apply_options default_broker with_publisher
new_mqtt_broker failure opts = elim failure [
  | some err ↦ panics err
  | none ↦ ok (with_publisher (apply_options opts default_broker))
]

unfoldable pub get_publisher : Broker → Option Publisher
get_publisher b = b.publisher

pub get_name : Broker → Bytes
get_name b = mqtt_broker

-- Health: the map's one entry, by the client's IsConnected.
pub health : Broker → Bool → List (Bytes × Option Error)
health b is_connected =
    (
      b.worker_type,
      if not is_connected then some (codes "mqtt broker has been disconnected") else none,
    )
    ∷ []

-- Disconnect, which gives the client half a second for what it has begun.
unfoldable pub disconnect_broker : Act Event (Option Error)
disconnect_broker = do emit (disconnect 500); return none

-- (*publisher).PublishMessage of a publisher with its qos and retain; the last argument is the
-- error of the client's token.
unfoldable pub publish_message :
    ℕ → Bool → (List Event → Option Error) → PublisherArgument → Act Event (Option Error)
publish_message qos retain client args = do
  emit (start_span (codes "MQTTBroker:PublishMessage"))
  emit (
      send_mqtt args.topic (or_default args.header_qos qos) (or_default args.header_retain retain)
        (message_or_data args))
  err ← ask client
  emit end_span
  return err
