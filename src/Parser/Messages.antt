-- ===== src/Parser/Messages.antt =====
-- What a parsed message is, whatever its topic and its bytes are.
use ome_kafka_bridge.Common.{
  ◌≡◌, refl, subst, arith, Bool, true, false, not, ◌||◌, Option, none, some, ◌>>=◌, Bytes, codes,
  All, is_empty, is_some, str_eq,
}
use ome_kafka_bridge.Labels.{Labels, lookup}
use ome_kafka_bridge.Parser.Model.{
  Time, MessageKind, telemetry, health, alerts, audit_logs, inventory, unknown, LogEntry,
  ParsedMessage,
}
use ome_kafka_bridge.Parser.Topics.{topic_kind}
use ome_kafka_bridge.Parser.Values.{Platform, parse_ome_time}
use ome_kafka_bridge.Parser.{
  alert_labels, audit_log_labels, inventory_labels, log_message, parse_telemetry, parse_health,
  parse_alert, parse_audit_log, parse_inventory, parse_as, parse,
}
use ome_kafka_bridge.Parser.Samples.{
  IsSampleOf, telemetry_samples-IsSampleOf, health_samples-IsSampleOf,
}

abbrev pub is_metrics : MessageKind → Bool
is_metrics telemetry = true
is_metrics health = true
is_metrics _ = false

abbrev pub is_known : MessageKind → Bool
is_known unknown = false
is_known telemetry = true
is_known health = true
is_known alerts = true
is_known audit_logs = true
is_known inventory = true

-- A log entry belongs to the topic and the time of its message.
abbrev pub IsEntryOf : Bytes → Time → Option LogEntry → Type 0
IsEntryOf topic ts none = Unit {0}
IsEntryOf topic ts (some e) =
    (lookup e.stream_labels (codes "topic") ≡ some topic) × (e.timestamp ≡ ts)

-- A message of the topic's kind, which is known: it has metrics or a log entry by its kind, and never both.
pub record IsParsed (topic : Bytes) (kind : MessageKind) (m : ParsedMessage) : Type 0 where
  pub kind_of_topic : m.kind ≡ kind
  pub known : is_known kind ≡ true
  pub own_topic : m.topic ≡ topic
  pub samples : All (IsSampleOf topic m.timestamp) m.metrics
  pub entry : IsEntryOf topic m.timestamp m.log_entry
  pub metrics_only : (is_empty m.metrics || is_metrics kind) ≡ true
  pub logs_only : is_some m.log_entry ≡ not (is_metrics kind)

-- What holds of every value of `f` holds of what comes out of a decoder and `f`.
of_decoded {ℓ κ} :
    {A : Type ℓ} {B : Type κ} (P : B → Type 0) (o : Option A) (f : A → B) {b : B}
    → ((a : A) → P (f a))
    → (o >>= λ a. some (f a)) ≡ some b
    → P b
of_decoded P none f all h = cc
of_decoded P (some a) f {b} all h = let e : f a ≡ b = cc in subst P e (all a)

-- A message with a log entry and no metrics.
log_message-IsParsed :
    (p : Platform) (topic : Bytes) (kind : MessageKind) (ts : Time) (line : Option Bytes)
    (labels : Labels)
    → is_known kind ≡ true
    → is_metrics kind ≡ false
    → lookup labels (codes "topic") ≡ some topic
    → IsParsed topic kind (log_message p topic kind ts line labels)
log_message-IsParsed p topic kind ts line labels known logs label = record {
  kind_of_topic = refl;
  known = known;
  own_topic = refl;
  samples = tt;
  entry = (label, refl);
  metrics_only = refl;
  logs_only = rw logs refl;
}

module _ (p : Platform) (topic value : Bytes) (m : ParsedMessage) where
  parse_telemetry-IsParsed : parse_telemetry p topic value ≡ some m → IsParsed topic telemetry m
  unfolding parse_telemetry
  parse_telemetry-IsParsed h =
      of_decoded (IsParsed topic telemetry) (p.unmarshal_telemetry value) _
        (λ msg. record {
          kind_of_topic = refl;
          known = refl;
          own_topic = refl;
          samples =
              telemetry_samples-IsSampleOf p topic msg (parse_ome_time p msg.timestamp)
                msg.metric_list;
          entry = tt;
          metrics_only = ground arith;
          logs_only = refl;
        })
        h

  parse_health-IsParsed : parse_health p topic value ≡ some m → IsParsed topic health m
  unfolding parse_health
  parse_health-IsParsed h =
      of_decoded (IsParsed topic health) (p.unmarshal_health value) _
        (λ msg. record {
          kind_of_topic = refl;
          known = refl;
          own_topic = refl;
          samples = health_samples-IsSampleOf p topic msg (parse_ome_time p msg.timestamp);
          entry = tt;
          metrics_only = ground arith;
          logs_only = refl;
        })
        h

  parse_alert-IsParsed : parse_alert p topic value ≡ some m → IsParsed topic alerts m
  unfolding parse_alert lookup str_eq
  parse_alert-IsParsed h =
      of_decoded (IsParsed topic alerts) (p.unmarshal_alert value) _
        (λ msg.
          log_message-IsParsed p topic alerts (parse_ome_time p msg.timestamp) (p.marshal_alert msg)
            (alert_labels p topic msg) refl refl refl)
        h

  parse_audit_log-IsParsed : parse_audit_log p topic value ≡ some m → IsParsed topic audit_logs m
  unfolding parse_audit_log lookup str_eq
  parse_audit_log-IsParsed h =
      of_decoded (IsParsed topic audit_logs) (p.unmarshal_audit_log value) _
        (λ msg.
          log_message-IsParsed p topic audit_logs (parse_ome_time p msg.timestamp)
            (p.marshal_audit_log msg) (audit_log_labels p topic msg) refl refl refl)
        h

  parse_inventory-IsParsed : parse_inventory p topic value ≡ some m → IsParsed topic inventory m
  unfolding parse_inventory lookup str_eq
  parse_inventory-IsParsed h =
      of_decoded (IsParsed topic inventory) (p.unmarshal_inventory value) _
        (λ msg.
          log_message-IsParsed p topic inventory (parse_ome_time p msg.timestamp)
            (p.marshal_inventory msg) (inventory_labels p topic msg) refl refl refl)
        h

  parse_as-IsParsed :
      (kind : MessageKind) → parse_as p topic kind value ≡ some m → IsParsed topic kind m
  unfolding parse_as
  parse_as-IsParsed telemetry h = parse_telemetry-IsParsed h
  parse_as-IsParsed health h = parse_health-IsParsed h
  parse_as-IsParsed alerts h = parse_alert-IsParsed h
  parse_as-IsParsed audit_logs h = parse_audit_log-IsParsed h
  parse_as-IsParsed inventory h = parse_inventory-IsParsed h
  parse_as-IsParsed unknown h = cc

  pub parse-IsParsed : parse p topic value ≡ some m → IsParsed topic (topic_kind topic) m
  unfolding parse
  parse-IsParsed h = parse_as-IsParsed (topic_kind topic) h
