-- ===== src/Stomp.antt =====
-- stomp-broker/: the broker with its publisher, the worker, its serving, and a message from end to end.
pub mod Broker
pub mod Worker
pub mod Serving
pub mod EndToEnd
