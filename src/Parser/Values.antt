-- ===== src/Parser/Values.antt =====
-- The parts of Go's library that parser.go calls, and what it makes of their results: times and
-- metric values.
use ome_kafka_bridge.Common.{Option, none, some, List, [], ◌∷◌, Bytes, codes, ℤ}
use ome_kafka_bridge.Parser.Model.{
  Time, Float, Dynamic, float64, float32, int, int64, number, text, other, TelemetryMessage,
  HealthMessage, AlertMessage, AuditLogMessage, InventoryMessage,
}

-- encoding/json at the types that are decoded and encoded, strings.ToLower, time.Parse of a layout
-- and a text, the time now, and the conversions to float64: of a float32, an integer, a json.Number
-- and, by fmt.Sscanf with %f, a text. `none` is an error.
pub record Platform : Type 1 where
  pub Json : Type 0
  pub unmarshal_telemetry : Bytes → Option TelemetryMessage
  pub unmarshal_health : Bytes → Option HealthMessage
  pub unmarshal_alert : Bytes → Option AlertMessage
  pub unmarshal_audit_log : Bytes → Option AuditLogMessage
  pub unmarshal_inventory : Bytes → Option (InventoryMessage Json)
  pub marshal_alert : AlertMessage → Option Bytes
  pub marshal_audit_log : AuditLogMessage → Option Bytes
  pub marshal_inventory : InventoryMessage Json → Option Bytes
  pub lower : Bytes → Bytes
  pub parse_time : Bytes → Bytes → Option Time
  pub now : Time
  pub fields : Bytes → List Bytes
  pub widen : Float → Float
  pub of_int : ℤ → Float
  pub number_float : Bytes → Option Float
  pub scan_float : Bytes → Option Float
  pub range_components : List (Bytes × ℤ) → List (Bytes × ℤ)

abbrev pub ome_time_formats : List Bytes
ome_time_formats =
    codes "2006-01-02T15:04:05Z07:00"
    ∷ codes "2006-01-02T15:04:05.999999999Z07:00"
    ∷ codes "2006-01-02T15:04:05"
    ∷ codes "2006-01-02T15:04:05Z"
    ∷ codes "2006-01-02 15:04:05"
    ∷ []

module _ (p : Platform) where
  -- The first layout that fits, and the time now if none does.
  unfoldable pub first_time : List Bytes → Bytes → Time
  first_time [] s = p.now
  first_time (layout ∷ layouts) s =
      let later = first_time layouts s in elim (p.parse_time layout s) [ some t ↦ t | none ↦ later ]

  -- The time that parseOMETime returns; no caller looks at its error.
  unfoldable pub parse_ome_time : Bytes → Time
  unfolding first_time
  parse_ome_time s = first_time ome_time_formats s

  -- The number that stands first in a text like "42 W".
  unfoldable pub first_number : List Bytes → Option Float
  first_number [] = none
  first_number (field ∷ _) = p.scan_float field

  unfoldable pub to_float64 : Dynamic → Option Float
  unfolding first_number
  to_float64 (float64 x) = some x
  to_float64 (float32 x) = some (p.widen x)
  to_float64 (int n) = some (p.of_int n)
  to_float64 (int64 n) = some (p.of_int n)
  to_float64 (number s) = p.number_float s
  to_float64 (text s) = first_number (p.fields s)
  to_float64 other = none
