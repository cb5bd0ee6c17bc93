-- ===== src/Forwarder/Batches.antt =====
-- A batch is taken whole.
use ome_kafka_bridge.Common.{◌≡◌, arith, List, [], Bytes}
use ome_kafka_bridge.Labels.{Labels}
use ome_kafka_bridge.Forwarder.Metrics.{MetricsForwarder, flush}
use ome_kafka_bridge.Forwarder.Logs.{LogForwarder, flush_entries, flush_logs}

module _ (range : Labels → List Bytes) (order : Labels → Labels) (compress : Bytes → Bytes) where
  -- A flush leaves nothing behind.
  pub flush-pending :
      (f : MetricsForwarder)
      → ((flush range order compress f).0.cfg ≡ f.cfg)
        × ((flush range order compress f).0.pending ≡ [])
  unfolding flush
  flush-pending f = ground arith

  pub flush_logs-pending :
      (f : LogForwarder)
      → ((flush_logs range f).0.cfg ≡ f.cfg) × ((flush_logs range f).0.pending ≡ [])
  unfolding flush_logs flush_entries
  flush_logs-pending f = ground arith
