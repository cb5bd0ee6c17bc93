-- ===== src/Forwarder.antt =====
-- internal/forwarder/forwarder.go: batches of samples and log entries, relabelled and sent.
pub mod Deadline
pub mod Client
pub mod Metrics
pub mod Logs
pub mod Batches
pub mod Interleave
pub mod Priority
pub mod Delivery
pub mod Ticker
