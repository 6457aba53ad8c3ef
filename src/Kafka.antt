-- ===== src/Kafka.antt =====
-- edc_translation/kafka_backend.py: the messages of the Kafka topics, the fan-out of a work item into
-- segments, and the plan that puts the results of the segments together.
pub mod Text
pub mod Envelope
pub mod Messages
pub mod Fanout
pub mod Reassembly
