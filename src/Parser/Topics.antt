-- ===== src/Parser/Topics.antt =====
-- topicKind of parser.go: the kind of a message is the part of its topic behind the first dot.
pub mod Kinds
use ome_kafka_bridge.Common.{◌==◌, if◌then◌else◌, Option, none, some, [], ◌∷◌, Bytes, codes, str_eq}
use ome_kafka_bridge.Parser.Model.{
  MessageKind, telemetry, health, alerts, audit_logs, inventory, unknown,
}

-- strings.SplitN(topic, ".", 2): the second part, if there are two
unfoldable pub after_dot : Bytes → Option Bytes
after_dot [] = none
after_dot (c ∷ s) = if c == b'.' then some s else after_dot s

unfoldable pub kind_of : Bytes → MessageKind
kind_of part =
    if str_eq part (codes "telemetry")
    then telemetry
    else if str_eq part (codes "health")
    then health
    else if str_eq part (codes "alerts")
    then alerts
    else if str_eq part (codes "auditlogs")
    then audit_logs
    else if str_eq part (codes "inventory")
    then inventory
    else unknown

unfoldable pub topic_kind : Bytes → MessageKind
unfolding after_dot kind_of
topic_kind topic = elim (after_dot topic) [ none ↦ unknown | some part ↦ kind_of part ]
