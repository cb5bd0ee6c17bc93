-- ===== src/Parser/Reading.antt =====
-- What becomes of one reading of a telemetry message, in OME's terms.
use ome_kafka_bridge.Common.{
  ◌≡◌, ◌∙◌, refl, arith, true, false, not, ◌&&◌, if◌then◌else◌, Option, none, some, ◌++◌, Bytes,
  codes, is_empty, str_eq, decimal,
}
use ome_kafka_bridge.Labels.{lookup}
use ome_kafka_bridge.Parser.Model.{
  Time, Float, float64, MetricSample, TelemetryMetric, TelemetryMessage,
}
use ome_kafka_bridge.Parser.Values.{Platform, to_float64}
use ome_kafka_bridge.Parser.Names.{sanitize_metric_name}
use ome_kafka_bridge.Parser.{telemetry_labels, telemetry_sample, copy_labels, with_unit}
use ome_kafka_bridge.Parser.Samples.{lookup-telemetry_sample}

-- The sample of a reading: its name and value, and each of its labels.
pub record IsReading (topic : Bytes) (msg : TelemetryMessage) (m : TelemetryMetric) (x : Float)
    (ts : Time) (s : MetricSample) : Type 0 where
  pub name : s.name ≡ sanitize_metric_name (codes "ome_telemetry_" ++ m.metric_name)
  pub value : s.value ≡ x
  pub timestamp : s.timestamp ≡ ts
  pub device_id : lookup s.labels (codes "device_id") ≡ some (decimal msg.device_id)
  pub device_name : lookup s.labels (codes "device_name") ≡ some msg.device_name
  pub service_tag : lookup s.labels (codes "service_tag") ≡ some msg.service_tag
  pub model : lookup s.labels (codes "model") ≡ some msg.model
  pub device_type : lookup s.labels (codes "device_type") ≡ some msg.device_type
  pub ip_address : lookup s.labels (codes "ip_address") ≡ some msg.ip_address
  pub topic_label : lookup s.labels (codes "topic") ≡ some topic
  pub unit : lookup s.labels (codes "unit") ≡ (if is_empty m.unit then none else some m.unit)

module _ (p : Platform) (topic : Bytes) (msg : TelemetryMessage) (m : TelemetryMetric)
    (ts : Time) where
  not_unit : {o : Option Bytes} → (if not (is_empty m.unit) && false then some m.unit else o) ≡ o
  not_unit = ground arith

  has_unit :
      (if not (is_empty m.unit) && true then some m.unit else none)
      ≡ (if is_empty m.unit then none else some m.unit)
  has_unit = ground arith

  -- The sample, for what is a number.
  abbrev sample_of : Float → MetricSample
  sample_of x = record {
    name = sanitize_metric_name (codes "ome_telemetry_" ++ m.metric_name);
    labels = with_unit p topic m.unit (copy_labels (telemetry_labels p topic msg));
    value = x;
    timestamp = ts;
  }

  -- A reading of a telemetry message whose value is a JSON number gives a sample: it is named after
  -- the metric, with `ome_telemetry_` before it and sanitized, it has the reading's value and the
  -- message's time, the device's id, name, service tag, model, type and address and the topic as
  -- labels, and the unit as a label exactly if the reading has one.
  pub telemetry_sample-IsReading :
      (x : Float)
      → m.metric_value ≡ float64 x
      → (s : MetricSample) × (telemetry_sample p topic (telemetry_labels p topic msg) ts m ≡ some s)
        × IsReading topic msg m x ts s
  unfolding lookup str_eq to_float64
  telemetry_sample-IsReading x number =
      let gives : telemetry_sample p topic (telemetry_labels p topic msg) ts m
          ≡ some (sample_of x) =
        unfold telemetry_sample in rw number refl in
      let label : (n : Bytes)
          → lookup (sample_of x).labels n ≡ (
              if not (is_empty m.unit) && str_eq (codes "unit") n
              then some m.unit
              else lookup (telemetry_labels p topic msg) n) =
        λ n. lookup-telemetry_sample p topic msg ts m (sample_of x) n gives in
      (
        sample_of x,
        gives,
        record {
          name = refl;
          value = refl;
          timestamp = refl;
          device_id = label (codes "device_id") ∙ not_unit;
          device_name = label (codes "device_name") ∙ not_unit;
          service_tag = label (codes "service_tag") ∙ not_unit;
          model = label (codes "model") ∙ not_unit;
          device_type = label (codes "device_type") ∙ not_unit;
          ip_address = label (codes "ip_address") ∙ not_unit;
          topic_label = label (codes "topic") ∙ not_unit;
          unit = label (codes "unit") ∙ has_unit;
        },
      )
