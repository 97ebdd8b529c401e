-- ===== src/Brokers/Tests.antt =====
-- The brokers and publishers at concrete inputs.
use candi_plugin.Base.{◌≡◌, refl, true, [], ◌∷◌, none, some}
use candi_plugin.Go.Outcome.{ok}
use candi_plugin.Mqtt.Broker as Mqtt

abbrev mqtt : Mqtt.Broker
mqtt = record {
  worker_type = Mqtt.mqtt_broker;
  publisher = some (Mqtt.standard 2 true);
  subscriber_qos = 2;
  publisher_qos = 2;
  retain = true;
}

made : Mqtt.new_mqtt_broker none (Mqtt.broker_set_message_retain ∷ []) ≡ ok mqtt
unfolding Mqtt.new_mqtt_broker Mqtt.with_publisher Mqtt.apply_options Mqtt.default_broker
    Mqtt.broker_set_message_retain
made = refl
