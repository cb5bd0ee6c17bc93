-- ===== src/Main/Events.antt =====
-- Messages, retries and ticks one after another, each taken whole.
use ome_kafka_bridge.Common.{List, [], ◌∷◌, Bytes}
use ome_kafka_bridge.Labels.{Labels}
use ome_kafka_bridge.Broker.State.{Message}
use ome_kafka_bridge.Parser.Values.{Platform}
use ome_kafka_bridge.Forwarder.Metrics.{flush}
use ome_kafka_bridge.Forwarder.Logs.{flush_logs}
use ome_kafka_bridge.Cache.{Retry}
use ome_kafka_bridge.Main.{Pipeline, Sent, nothing, both, to_list, process_message, on_retry}

-- What the goroutines do to the pipeline.
pub data Event : Type 0 where
  message : Message → Event
  retried : Retry → Event
  metrics_tick log_tick : Event

module _ (range : Labels → List Bytes) (order : Labels → Labels) (compress : Bytes → Bytes)
    (platform : Platform) where
  unfoldable pub step : Event → Pipeline → Pipeline × Sent
  step (message msg) p = process_message range order compress platform msg p
  step (retried r) p = on_retry range order compress r p
  step metrics_tick p =
      let (fwd, body) = flush range order compress p.metrics_fwd in
      (record p { metrics_fwd = fwd }, record { bodies = to_list body; batches = [] })
  step log_tick p =
      let (fwd, batch) = flush_logs range p.log_fwd in
      (record p { log_fwd = fwd }, record { bodies = []; batches = to_list batch })

  unfoldable pub run_events : List Event → Pipeline → Pipeline × Sent
  run_events [] p = (p, nothing)
  run_events (e ∷ events) p =
      let (p', first) = step e p in let (p'', rest) = run_events events p' in (p'', both first rest)
