-- ===== src/Forwarder/Priority.antt =====
-- Which value a label has when a sample or an entry goes out.
use ome_kafka_bridge.Common.{
  ◌≡◌, ◌∙◌, refl, ap, if◌then◌else◌, Option, none, some, [], Bytes, codes, str_eq,
}
use ome_kafka_bridge.Labels.{Labels, lookup, merge}
use ome_kafka_bridge.Labels.Laws.{HasNoDuplicates, or_else, lookup-set, lookup-merge}
use ome_kafka_bridge.Parser.Model.{MetricSample, LogEntry}
use ome_kafka_bridge.Forwarder.Metrics.{sample_labels}
use ome_kafka_bridge.Forwarder.Logs.{stream_labels_of}

or_else-none : (o : Option Bytes) → or_else o none ≡ o
or_else-none none = refl
or_else-none (some v) = refl

-- Two maps written one after the other into an empty one.
lookup-merges :
    (first second : Labels) (n : Bytes)
    → HasNoDuplicates first
    → HasNoDuplicates second
    → lookup (merge (merge [] first) second) n ≡ or_else (lookup second n) (lookup first n)
unfolding lookup
lookup-merges first second n hf hs =
    lookup-merge second (merge [] first) n hs
    ∙ ap (or_else (lookup second n)) (lookup-merge first [] n hf ∙ or_else-none (lookup first n))

module _ (extra : Labels) (n : Bytes) where
  -- Before relabelling, a sample's series has the metric's name as `__name__`, whatever its labels
  -- say. Any other label is the sample's own, and an extra label only if the sample does not have it.
  pub lookup-sample_labels :
      (s : MetricSample)
      → HasNoDuplicates extra
      → HasNoDuplicates s.labels
      → lookup (sample_labels extra s) n ≡ (
          if str_eq (codes "__name__") n
          then some s.name
          else or_else (lookup s.labels n) (lookup extra n))
  unfolding sample_labels
  lookup-sample_labels s he hs =
      lookup-set (merge (merge [] extra) s.labels) (codes "__name__") s.name n
      ∙ rw (lookup-merges extra s.labels n he hs) refl

  -- Before relabelling, a label of an entry's stream is the entry's own, and an extra label only if
  -- the entry does not have it.
  pub lookup-stream_labels_of :
      (e : LogEntry)
      → HasNoDuplicates extra
      → HasNoDuplicates e.stream_labels
      → lookup (stream_labels_of extra e) n ≡ or_else (lookup e.stream_labels n) (lookup extra n)
  unfolding stream_labels_of
  lookup-stream_labels_of e he hs = lookup-merges extra e.stream_labels n he hs
