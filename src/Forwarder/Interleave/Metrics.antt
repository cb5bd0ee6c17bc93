-- ===== src/Forwarder/Interleave/Metrics.antt =====
-- A metrics forwarder under submissions and flushes.
use ome_kafka_bridge.Common.{◌≡◌, refl, Option, List, [], ◌∷◌, Bytes, filter_map}
use ome_kafka_bridge.Labels.{Labels}
use ome_kafka_bridge.Parser.Model.{MetricSample}
use ome_kafka_bridge.Forwarder.Metrics.{
  MetricsForwarder, add_body, encode_batch, to_series, flush_batch, flush, append_samples,
}
use ome_kafka_bridge.Forwarder.Interleave.{Action, append, take}

module _ (range : Labels → List Bytes) (order : Labels → Labels) (compress : Bytes → Bytes) where
  -- A metrics forwarder under a sequence of actions, with the bodies that it hands to `send`.
  unfoldable pub run_metrics :
      MetricsForwarder → List (Action MetricSample) → MetricsForwarder × List Bytes
  run_metrics f [] = (f, [])
  run_metrics f (append samples ∷ actions) =
      run_metrics (append_samples range order compress f samples) actions
  run_metrics f (take ∷ actions) =
      let (f', body) = flush range order compress f in
      let (f'', bodies) = run_metrics f' actions in (f'', add_body body bodies)

  abbrev pub body_of : MetricsForwarder → List MetricSample → Option Bytes
  body_of f batch =
      encode_batch range order compress (filter_map (to_series range order compress f) batch)

  pub flush-eq :
      (f : MetricsForwarder) (batch : List MetricSample)
      → flush range order compress (record f { pending = batch })
        ≡ (record f { pending = [] }, body_of f batch)
  unfolding flush flush_batch filter_map encode_batch to_series
  flush-eq f [] = refl
  flush-eq f (s ∷ batch) = refl
