-- ===== src/Examples/Messages.antt =====
-- A telemetry message of one power reading, and a platform that decodes it.
use ome_kafka_bridge.Common.{
  ◌≡◌, ◌↔◌, refl, true, none, some, [], ◌∷◌, ◌++◌, Bytes, codes, All, pos, str_eq, decimal,
}
use ome_kafka_bridge.Config.{default_metrics_topics, default_log_topics}
use ome_kafka_bridge.Parser.Model.{
  telemetry, float64, MetricSample, ParsedMessage, TelemetryMetric, TelemetryMessage,
}
use ome_kafka_bridge.Parser.Topics.{topic_kind}
use ome_kafka_bridge.Parser.Dotted.{parse-dotted_identifier}
use ome_kafka_bridge.Parser.Names.{sanitize_metric_name}
use ome_kafka_bridge.Parser.Names.Valid.{
  is_metric_name, is_plain, is_metric_name-sanitize_metric_name, sanitize_metric_name-eq,
}
use ome_kafka_bridge.Parser.Values.{Platform, to_float64, parse_ome_time}
use ome_kafka_bridge.Parser.{
  telemetry_labels, with_unit, copy_labels, telemetry_sample, telemetry_samples, parse_telemetry,
  parse,
}
use ome_kafka_bridge.Parser.Reading.{IsReading, telemetry_sample-IsReading}

is_metric_name-sanitize_metric_name_example :
    is_metric_name (sanitize_metric_name (codes "9 Watts")) ≡ true
is_metric_name-sanitize_metric_name_example =
    is_metric_name-sanitize_metric_name b'9' (codes " Watts")

sanitize_metric_name-eq_example :
    (sanitize_metric_name (codes "inlet_temp") ≡ codes "inlet_temp")
    ↔ (is_plain true (codes "inlet_temp") ≡ true)
sanitize_metric_name-eq_example = sanitize_metric_name-eq (codes "inlet_temp")

abbrev reading : TelemetryMetric
reading = record {
  metric_name = codes "Power";
  metric_value = float64 4631107791820423168;
  unit = codes "W";
}

abbrev pub message : TelemetryMessage
message = record {
  device_id = pos 7;
  device_name = codes "r740";
  service_tag = codes "ABC";
  model = codes "PowerEdge";
  device_type = [];
  ip_address = [];
  timestamp = [];
  metric_list = reading ∷ [];
}

-- Every telemetry message decodes to this one, and every time is the same.
abbrev pub platform : Platform
platform = record {
  Json = Unit {0};
  unmarshal_telemetry = λ value. some message;
  unmarshal_health = λ value. none;
  unmarshal_alert = λ value. none;
  unmarshal_audit_log = λ value. none;
  unmarshal_inventory = λ value. none;
  marshal_alert = λ msg. none;
  marshal_audit_log = λ msg. none;
  marshal_inventory = λ msg. none;
  lower = λ s. s;
  parse_time = λ layout s. none;
  now = pos 1700000000000000000;
  fields = λ s. [];
  widen = λ x. x;
  of_int = λ n. 0;
  number_float = λ s. none;
  scan_float = λ s. none;
  range_components = λ components. components;
}

abbrev pub topic : Bytes
topic = codes "ome.telemetry"

abbrev pub sample : MetricSample
sample = record {
  name = codes "ome_telemetry_power";
  labels =
      (codes "device_id", codes "7")
      ∷ (codes "device_name", codes "r740")
      ∷ (codes "service_tag", codes "ABC")
      ∷ (codes "model", codes "PowerEdge")
      ∷ (codes "device_type", [])
      ∷ (codes "ip_address", [])
      ∷ (codes "topic", topic)
      ∷ (codes "unit", codes "W")
      ∷ [];
  value = 4631107791820423168;
  timestamp = pos 1700000000000000000;
}

sample-reading :
    telemetry_sample platform topic
      (telemetry_labels platform topic message)
      (pos 1700000000000000000)
      reading
    ≡ some sample
unfolding telemetry_sample to_float64 sanitize_metric_name with_unit copy_labels str_eq decimal
sample-reading = refl

parse-dotted_identifier_example :
    All
      (λ t. parse platform t [] ≡ none)
      (default_metrics_topics (codes "ome.lab") ++ default_log_topics (codes "ome.lab"))
parse-dotted_identifier_example = parse-dotted_identifier platform (codes "ome.lab") [] refl

telemetry_sample-IsReading_example :
    (s : MetricSample) × (telemetry_sample platform topic
        (telemetry_labels platform topic message)
        (pos 1700000000000000000)
        reading
      ≡ some s)
    × IsReading topic message reading 4631107791820423168 (pos 1700000000000000000) s
telemetry_sample-IsReading_example =
    telemetry_sample-IsReading platform topic message reading (pos 1700000000000000000)
      4631107791820423168 refl

abbrev pub parsed : ParsedMessage
parsed = record {
  kind = telemetry;
  topic = topic;
  timestamp = pos 1700000000000000000;
  metrics = sample ∷ [];
  log_entry = none;
}

pub parsed-parse : parse platform topic [] ≡ some parsed
unfolding parse topic_kind str_eq parse_telemetry parse_ome_time telemetry_samples telemetry_sample
    to_float64 sanitize_metric_name with_unit copy_labels decimal
parsed-parse = refl
