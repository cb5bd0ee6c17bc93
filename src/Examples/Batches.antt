-- ===== src/Examples/Batches.antt =====
-- Forwarders with a batch size of two, no rules, and one extra label.
use ome_kafka_bridge.Common.{
  ◌≡◌, refl, false, if◌then◌else◌, Option, none, some, List, [], ◌∷◌, map, Bytes, codes, pos,
  str_eq,
}
use ome_kafka_bridge.Labels.{Labels, lookup}
use ome_kafka_bridge.Labels.Laws.{or_else}
use ome_kafka_bridge.Config.{RemoteWriteConfig, LokiConfig, TlsConfig}
use ome_kafka_bridge.Parser.Model.{MetricSample, LogEntry}
use ome_kafka_bridge.Forwarder.Metrics.{MetricsForwarder, sample_labels}
use ome_kafka_bridge.Forwarder.Logs.{LogForwarder}
use ome_kafka_bridge.Forwarder.Interleave.{Action, append, take}
use ome_kafka_bridge.Forwarder.Priority.{lookup-sample_labels}
use ome_kafka_bridge.Examples.Messages.{sample}

abbrev pub tls : TlsConfig
tls = record { insecure_skip_verify = false; ca_file = []; cert_file = []; key_file = [] }

abbrev pub remote_write : RemoteWriteConfig
remote_write = record {
  url = codes "http://vm:8428/api/v1/write";
  timeout = pos 1;
  username = [];
  password = [];
  tls = tls;
  batch_size = pos 2;
  flush_interval = pos 1;
}

abbrev pub loki : LokiConfig
loki = record {
  url = codes "http://loki:3100";
  timeout = pos 1;
  tls = tls;
  batch_size = pos 2;
  flush_interval = pos 1;
}

abbrev extra : Labels
extra = (codes "site", codes "lab") ∷ (codes "topic", codes "none") ∷ []

abbrev pub range : Labels → List Bytes
range = map (λ (k, _). k)

abbrev pub order : Labels → Labels
order labels = labels

-- A compression that sets a byte in front.
abbrev pub compress : Bytes → Bytes
compress b = 0 ∷ b

abbrev pub decompress : Bytes → Option Bytes
decompress [] = none
decompress (c ∷ b) = some b

abbrev pub metrics_forwarder : MetricsForwarder
metrics_forwarder = record { cfg = remote_write; extra_labels = extra; rules = []; pending = [] }

abbrev pub log_forwarder : LogForwarder
log_forwarder = record { cfg = loki; extra_labels = extra; rules = []; pending = [] }

abbrev pub entry : LogEntry
entry = record {
  stream_labels = (codes "topic", codes "ome.alerts") ∷ [];
  timestamp = pos 5;
  line = codes "fan failed";
}

abbrev metric_actions : List (Action MetricSample)
metric_actions = append (sample ∷ []) ∷ take ∷ append (sample ∷ sample ∷ []) ∷ take ∷ append [] ∷ []

abbrev log_actions : List (Action LogEntry)
log_actions = append (entry ∷ []) ∷ take ∷ append (entry ∷ []) ∷ []

-- The sample's own topic, and not the extra one.
lookup-sample_labels_example : lookup (sample_labels extra sample) (codes "topic") ≡ (
    if str_eq (codes "__name__") (codes "topic")
    then some sample.name
    else or_else (lookup sample.labels (codes "topic")) (lookup extra (codes "topic")))
unfolding lookup str_eq
lookup-sample_labels_example =
    lookup-sample_labels extra (codes "topic") sample (refl, (refl, tt))
      (refl, (refl, (refl, (refl, (refl, (refl, (refl, (refl, tt))))))))
