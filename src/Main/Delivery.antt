-- ===== src/Main/Delivery.antt =====
-- The way of a message from the channel to the body of a post.
use ome_kafka_bridge.Common.{List, ◌++◌, Bytes}
use ome_kafka_bridge.Labels.{Labels}
use ome_kafka_bridge.Parser.Model.{MetricSample}
use ome_kafka_bridge.Prompb.{WriteRequest}
use ome_kafka_bridge.Forwarder.Metrics.{MetricsForwarder}
use ome_kafka_bridge.Forwarder.Delivery.{request_of}

module _ (range : Labels → List Bytes) (order : Labels → Labels) (compress : Bytes → Bytes) where
  -- The forwarder with samples at the end of its queue.
  abbrev pub queued : MetricsForwarder → List MetricSample → MetricsForwarder
  queued f samples = record f { pending = f.pending ++ samples }

  -- The request of a queue that samples are added to.
  abbrev pub next_request : MetricsForwarder → List MetricSample → WriteRequest
  next_request f samples = request_of range order compress (queued f samples) (f.pending ++ samples)
