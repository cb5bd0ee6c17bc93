-- ===== src/Broker.antt =====
-- internal/broker/broker.go: the Kafka broker that OME connects to.
pub mod Outcome
pub mod Reader
pub mod Writer
pub mod State
pub mod Listen
pub mod ApiVersions
pub mod Metadata
pub mod Records
pub mod Produce
pub mod Request
