-- ===== src/Brokers.antt =====
-- What the brokers and publishers of mqtt-broker/, stomp-broker/, gcppubsub/ and amazonsqs/ have in
-- common.
mod Tests
use candi_plugin.Base.{
  ℕ, ◌≡◌, refl, Bool, true, false, List, [], ◌∷◌, Option, none, some, arith, bytes_eq,
}
use candi_plugin.Go.Text.{Bytes}
use candi_plugin.Go.Outcome.{Outcome, ok, panics}
use candi_plugin.Candi.{
  Event, Error, Attributes, PublisherArgument, message_or_data, send_mqtt, send_stomp, send_sqs,
  publish_pubsub,
}
use candi_plugin.Mqtt.Broker as Mqtt
use candi_plugin.Stomp.Broker as Stomp
use candi_plugin.PubSub.Broker as PubSub
use candi_plugin.Sqs.Broker as Sqs

abbrev pub has_value {ℓ} : {A : Type ℓ} → Option A → Bool
has_value none = false
has_value (some a) = true

-- The destinations and the bodies of the messages that were sent, the newest first.
abbrev pub sent_messages : List Event → List (Bytes × Bytes)
sent_messages [] = []
sent_messages (send_mqtt topic qos retain payload ∷ log) = (topic, payload) ∷ sent_messages log
sent_messages (send_stomp topic content_type body header ∷ log) = (topic, body) ∷ sent_messages log
sent_messages (send_sqs topic body ∷ log) = (topic, body) ∷ sent_messages log
sent_messages (publish_pubsub topic body attributes ∷ log) = (topic, body) ∷ sent_messages log
sent_messages (e ∷ log) = sent_messages log

pub record Sent (args : PublisherArgument) (err : Option Error) (log : List Event)
    (r : Outcome (Option Error) × List Event) : Type 0 where
  pub answers : r.0 ≡ ok err
  pub sends : sent_messages r.1 ≡ (args.topic, message_or_data args) ∷ sent_messages log

-- PublishMessage of each package sends one message, to the argument's topic, and answers the client's
-- error; the message is the argument's if that is not empty, else its data.
pub publish_message-Sent :
    (qos : ℕ) (retain : Bool) (content_type : Option Bytes) (uuid : Bytes)
    (inject : Attributes → Attributes) (err : Option Error) (args : PublisherArgument)
    (log : List Event)
    → Sent args err log (Mqtt.publish_message qos retain (λ l. err) args log)
      × Sent args err log (Stomp.publish_message content_type uuid inject (λ l. err) args log)
      × Sent args err log (PubSub.publish_message inject (λ l. err) args log)
      × Sent args err log (Sqs.publish_message content_type uuid inject (λ l. err) args log)
unfolding Mqtt.publish_message Stomp.publish_message PubSub.publish_message Sqs.publish_message
    Sqs.tag_sent
publish_message-Sent qos retain content_type uuid inject err args log = ground arith

-- Whatever the options are, the broker that a constructor returns has a publisher.
pub new_broker_publisher :
    (mqtt_options : List Mqtt.BrokerOptionFunc) (bk : Mqtt.Broker) (conn : Bytes)
    (stomp_options : List Stomp.BrokerOptionFunc) (pubsub_options : List PubSub.BrokerOptionFunc)
    (client : Bytes) (sqs_options : List Sqs.BrokerOptionFunc)
    → Mqtt.new_mqtt_broker none mqtt_options ≡ ok bk
    → (has_value (Mqtt.get_publisher bk) ≡ true)
      × (has_value (Stomp.get_publisher (Stomp.new_stomp_broker conn stomp_options)) ≡ true)
      × (has_value (PubSub.get_publisher (PubSub.new_gcp_pubsub_broker pubsub_options)) ≡ true)
      × (has_value (Sqs.get_publisher (Sqs.new_amazon_sqs_broker client sqs_options)) ≡ true)
unfolding Mqtt.new_mqtt_broker Mqtt.get_publisher Mqtt.with_publisher Stomp.get_publisher
    Stomp.new_stomp_broker Stomp.with_publisher PubSub.get_publisher PubSub.new_gcp_pubsub_broker
    PubSub.with_publisher Sqs.get_publisher Sqs.new_amazon_sqs_broker Sqs.with_publisher
new_broker_publisher mqtt_options bk conn stomp_options pubsub_options client sqs_options e =
    ground (arith, e)
