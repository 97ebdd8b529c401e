-- ===== src/Mqtt.antt =====
-- Package mqttbroker (mqtt-broker/).
pub mod Router
pub mod Broker
pub mod Serving
pub mod Subscriber
