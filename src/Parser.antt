-- ===== src/Parser.antt =====
-- internal/parser/parser.go: OME's messages, decoded into metric samples and log entries. `none` is an
-- error.
pub mod Model
pub mod Topics
pub mod Names
pub mod Values
pub mod Dotted
pub mod Samples
pub mod Reading
pub mod Messages
use ome_kafka_bridge.Common.{
  Bool, true, false, if◌then◌else◌, Option, none, some, ◌>>=◌, List, [], ◌∷◌, ◌++◌, Bytes, codes, ℤ,
  decimal,
}
use ome_kafka_bridge.Labels.{Labels, set, merge}
use ome_kafka_bridge.Parser.Model.{
  Time, Float, MessageKind, telemetry, health, alerts, audit_logs, inventory, unknown, MetricSample,
  LogEntry, ParsedMessage, TelemetryMetric, TelemetryMessage, HealthMessage, AlertMessage,
  AuditLogMessage, InventoryMessage,
}
use ome_kafka_bridge.Parser.Topics.{topic_kind}
use ome_kafka_bridge.Parser.Names.{sanitize_metric_name}
use ome_kafka_bridge.Parser.Values.{Platform, parse_ome_time, to_float64}

unfoldable pub copy_labels : Labels → Labels
unfolding merge
copy_labels src = merge [] src

-- The bytes of a line whose encoding error is not looked at.
abbrev line_of : Option Bytes → Bytes
line_of none = []
line_of (some line) = line

module _ (p : Platform) (topic : Bytes) where
  abbrev pub telemetry_labels : TelemetryMessage → Labels
  telemetry_labels msg =
      (codes "device_id", decimal msg.device_id)
      ∷ (codes "device_name", msg.device_name)
      ∷ (codes "service_tag", msg.service_tag)
      ∷ (codes "model", msg.model)
      ∷ (codes "device_type", msg.device_type)
      ∷ (codes "ip_address", msg.ip_address)
      ∷ (codes "topic", topic)
      ∷ []

  -- `if m.Unit != ""`
  unfoldable pub with_unit : Bytes → Labels → Labels
  unfolding set
  with_unit [] labels = labels
  with_unit (c ∷ s) labels = set labels (codes "unit") (c ∷ s)

  unfoldable pub telemetry_sample : Labels → Time → TelemetryMetric → Option MetricSample
  telemetry_sample base ts m = do
    val ← to_float64 p m.metric_value
    some (record {
      name = sanitize_metric_name (codes "ome_telemetry_" ++ m.metric_name);
      labels = with_unit m.unit (copy_labels base);
      value = val;
      timestamp = ts;
    })

  -- The loop over the metric list, which skips what is not a number.
  unfoldable pub telemetry_samples : Labels → Time → List TelemetryMetric → List MetricSample
  telemetry_samples base ts [] = []
  telemetry_samples base ts (m ∷ ms) =
      let rest = telemetry_samples base ts ms in
      elim (telemetry_sample base ts m) [ none ↦ rest | some sample ↦ sample ∷ rest ]

  unfoldable pub parse_telemetry : Bytes → Option ParsedMessage
  parse_telemetry value = do
    msg ← p.unmarshal_telemetry value
    let ts = parse_ome_time p msg.timestamp
    some (record {
      kind = telemetry;
      topic = topic;
      timestamp = ts;
      metrics = telemetry_samples (telemetry_labels msg) ts msg.metric_list;
      log_entry = none;
    })

  abbrev pub health_labels : HealthMessage → Labels
  health_labels msg =
      (codes "device_id", decimal msg.device_id)
      ∷ (codes "device_name", msg.device_name)
      ∷ (codes "service_tag", msg.service_tag)
      ∷ (codes "model", msg.model)
      ∷ (codes "device_type", msg.device_type)
      ∷ (codes "ip_address", msg.ip_address)
      ∷ (codes "topic", topic)
      ∷ []

  abbrev pub health_sample : Bytes → Labels → Time → ℤ → MetricSample
  health_sample name labels ts value = record {
    name = name;
    labels = labels;
    value = p.of_int value;
    timestamp = ts;
  }

  unfoldable pub component_samples : Labels → Time → List (Bytes × ℤ) → List MetricSample
  unfolding copy_labels set
  component_samples base ts [] = []
  component_samples base ts ((component, status) ∷ rest) =
      health_sample (codes "ome_health_component_status")
        (set (copy_labels base) (codes "component") component) ts status
      ∷ component_samples base ts rest

  -- The two samples of the device, and one for each component.
  unfoldable pub health_samples : HealthMessage → Time → List MetricSample
  health_samples msg ts =
      let base = health_labels msg in
      health_sample (codes "ome_health_rollup_status") (copy_labels base) ts msg.rollup_status
      ∷ health_sample (codes "ome_health_power_state") (copy_labels base) ts msg.power_state
      ∷ component_samples base ts (p.range_components msg.component_health_map)

  unfoldable pub parse_health : Bytes → Option ParsedMessage
  parse_health value = do
    msg ← p.unmarshal_health value
    let ts = parse_ome_time p msg.timestamp
    some (record {
      kind = health;
      topic = topic;
      timestamp = ts;
      metrics = health_samples msg ts;
      log_entry = none;
    })

  -- A message that carries a log entry and no metrics.
  abbrev pub log_message : MessageKind → Time → Option Bytes → Labels → ParsedMessage
  log_message kind ts line labels = record {
    kind = kind;
    topic = topic;
    timestamp = ts;
    metrics = [];
    log_entry = some (record { timestamp = ts; line = line_of line; stream_labels = labels });
  }

  abbrev pub alert_labels : AlertMessage → Labels
  alert_labels msg =
      (codes "topic", topic)
      ∷ (codes "job", codes "ome_alerts")
      ∷ (codes "severity", p.lower msg.severity)
      ∷ (codes "category", msg.event_category)
      ∷ (codes "sub_category", msg.sub_category)
      ∷ (codes "device_name", msg.device_name)
      ∷ (codes "service_tag", msg.service_tag)
      ∷ (codes "device_type", codes "server")
      ∷ []

  unfoldable pub parse_alert : Bytes → Option ParsedMessage
  parse_alert value = do
    msg ← p.unmarshal_alert value
    some (
        log_message alerts (parse_ome_time p msg.timestamp) (p.marshal_alert msg)
          (alert_labels msg))

  abbrev pub audit_log_labels : AuditLogMessage → Labels
  audit_log_labels msg =
      (codes "topic", topic)
      ∷ (codes "job", codes "ome_auditlogs")
      ∷ (codes "severity", p.lower msg.severity)
      ∷ (codes "category", msg.category)
      ∷ (codes "sub_category", msg.sub_category)
      ∷ (codes "username", msg.user_name)
      ∷ (codes "ip_address", msg.ip_address)
      ∷ []

  unfoldable pub parse_audit_log : Bytes → Option ParsedMessage
  parse_audit_log value = do
    msg ← p.unmarshal_audit_log value
    some (
        log_message audit_logs (parse_ome_time p msg.timestamp) (p.marshal_audit_log msg)
          (audit_log_labels msg))

  abbrev pub inventory_labels : InventoryMessage p.Json → Labels
  inventory_labels msg =
      (codes "topic", topic)
      ∷ (codes "job", codes "ome_inventory")
      ∷ (codes "device_name", msg.device_name)
      ∷ (codes "service_tag", msg.service_tag)
      ∷ (codes "model", msg.model)
      ∷ (codes "device_type", msg.device_type)
      ∷ (codes "ip_address", msg.ip_address)
      ∷ []

  unfoldable pub parse_inventory : Bytes → Option ParsedMessage
  parse_inventory value = do
    msg ← p.unmarshal_inventory value
    some (
        log_message inventory (parse_ome_time p msg.timestamp) (p.marshal_inventory msg)
          (inventory_labels msg))

  unfoldable pub parse_as : MessageKind → Bytes → Option ParsedMessage
  parse_as telemetry value = parse_telemetry value
  parse_as health value = parse_health value
  parse_as alerts value = parse_alert value
  parse_as audit_logs value = parse_audit_log value
  parse_as inventory value = parse_inventory value
  parse_as unknown value = none

  unfoldable pub parse : Bytes → Option ParsedMessage
  unfolding parse_as
  parse value = parse_as (topic_kind topic) value
