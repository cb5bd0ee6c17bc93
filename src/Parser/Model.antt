-- ===== src/Parser/Model.antt =====
-- The types of parser.go. An instant is a number of nanoseconds since 1970, and a float64 is its bit
-- pattern.
use ome_kafka_bridge.Common.{ℕ, Option, List, Bytes, codes, ℤ}
use ome_kafka_bridge.Labels.{Labels}

abbrev pub Time : Type 0
Time = ℤ

abbrev pub Float : Type 0
Float = ℕ

pub data MessageKind : Type 0 where
  telemetry health alerts audit_logs inventory unknown : MessageKind

-- The text of a kind.
abbrev pub kind_name : MessageKind → Bytes
kind_name telemetry = codes "telemetry"
kind_name health = codes "health"
kind_name alerts = codes "alerts"
kind_name audit_logs = codes "auditlogs"
kind_name inventory = codes "inventory"
kind_name unknown = codes "unknown"

pub record MetricSample : Type 0 where
  pub name : Bytes
  pub labels : Labels
  pub value : Float
  pub timestamp : Time

pub record LogEntry : Type 0 where
  pub timestamp : Time
  pub line : Bytes
  pub stream_labels : Labels

pub record ParsedMessage : Type 0 where
  pub kind : MessageKind
  pub topic : Bytes
  pub timestamp : Time
  pub metrics : List MetricSample
  pub log_entry : Option LogEntry

-- What an interface{} may hold: the types that the code tells apart, and any other.
pub data Dynamic : Type 0 where
  float64 float32 : Float → Dynamic
  int int64 : ℤ → Dynamic
  number text : Bytes → Dynamic
  other : Dynamic

pub record TelemetryMetric : Type 0 where
  pub metric_name : Bytes
  pub metric_value : Dynamic
  pub unit : Bytes

pub record TelemetryMessage : Type 0 where
  pub device_id : ℤ
  pub device_name : Bytes
  pub service_tag : Bytes
  pub model : Bytes
  pub device_type : Bytes
  pub ip_address : Bytes
  pub timestamp : Bytes
  pub metric_list : List TelemetryMetric

pub record HealthMessage : Type 0 where
  pub device_id : ℤ
  pub device_name : Bytes
  pub service_tag : Bytes
  pub model : Bytes
  pub device_type : Bytes
  pub ip_address : Bytes
  pub timestamp : Bytes
  pub rollup_status : ℤ
  pub connection_status : Bytes
  pub power_state : ℤ
  pub component_health_map : List (Bytes × ℤ)

pub record AlertMessage : Type 0 where
  pub event_id : ℤ
  pub event_category : Bytes
  pub event_source : Bytes
  pub severity : Bytes
  pub sub_category : Bytes
  pub message : Bytes
  pub recommended_action : Bytes
  pub acknowledged_by : Bytes
  pub timestamp : Bytes
  pub device_id : ℤ
  pub device_name : Bytes
  pub service_tag : Bytes
  pub model : Bytes
  pub ip_address : Bytes

pub record AuditLogMessage : Type 0 where
  pub log_id : ℤ
  pub category : Bytes
  pub sub_category : Bytes
  pub severity : Bytes
  pub message : Bytes
  pub user_name : Bytes
  pub ip_address : Bytes
  pub timestamp : Bytes

-- The inventory itself is only decoded and encoded again: `inventory` is what json.Unmarshal gave.
pub record InventoryMessage (Json : Type 0) : Type 0 where
  pub device_id : ℤ
  pub device_name : Bytes
  pub service_tag : Bytes
  pub model : Bytes
  pub device_type : Bytes
  pub ip_address : Bytes
  pub timestamp : Bytes
  pub inventory : Json
