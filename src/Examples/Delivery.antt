-- ===== src/Examples/Delivery.antt =====
-- One telemetry message that fills a batch of one sample.
use ome_kafka_bridge.Common.{[], ◌∷◌, pos}
use ome_kafka_bridge.Relabel
use ome_kafka_bridge.Broker.State.{Message, now}
use ome_kafka_bridge.Forwarder.Metrics.{MetricsForwarder}
use ome_kafka_bridge.Main.{Pipeline}
use ome_kafka_bridge.Examples.Messages.{topic}
use ome_kafka_bridge.Examples.Batches.{remote_write, metrics_forwarder, log_forwarder}

abbrev eager : MetricsForwarder
eager = record metrics_forwarder {
  cfg = record remote_write { batch_size = pos 1 };
  extra_labels = [];
}

abbrev pipeline : Pipeline
pipeline = record {
  metrics_topics = topic ∷ [];
  log_topics = [];
  metrics_fwd = eager;
  log_fwd = log_forwarder;
  received = [];
  dropped = [];
}

abbrev power : Message
power = record { topic = topic; partition = pos 0; key = []; value = []; timestamp = now }
