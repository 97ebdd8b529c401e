-- ===== src/Sqs.antt =====
-- amazonsqs/: the broker with its publisher, and the worker.
pub mod Broker
pub mod Worker
