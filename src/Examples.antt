-- ===== src/Examples.antt =====
-- A small broker, and what the theorems say of it at given requests. Each module holds the examples
-- of one part.
pub mod Requests
pub mod Crashes
pub mod Answers
pub mod Settings
pub mod Payload
pub mod Logs
pub mod Rules
pub mod Messages
pub mod Batches
pub mod Pipeline
pub mod Spool
pub mod Delivery
pub mod Process
use ome_kafka_bridge.Common.{false, true, [], ◌∷◌, Bytes, codes, pos, negsuc}
use ome_kafka_bridge.Config.{KafkaConfig}
use ome_kafka_bridge.Broker.State.{Broker, new}

abbrev pub telemetry : Bytes
telemetry = codes "ome.telemetry"

abbrev pub alerts : Bytes
alerts = codes "ome.alerts"

abbrev pub kafka_config : KafkaConfig
kafka_config = record {
  listen_addr = codes "0.0.0.0:9092";
  ome_identifier = codes "ome";
  advertised_host = [];
  advertised_port = pos 0;
  topics = telemetry ∷ [];
  auto_create_topics = true;
  num_partitions = pos 1;
  replication_factor = pos 1;
}

abbrev pub broker : Broker
broker = new kafka_config
