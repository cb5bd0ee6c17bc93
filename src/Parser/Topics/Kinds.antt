-- ===== src/Parser/Topics/Kinds.antt =====
-- Which topics have a kind, and what that makes of the topics that a configuration gets by default.
use ome_kafka_bridge.Common.{
  ◌≡◌, refl, arith, Bool, true, false, ◌||◌, ◌==◌, some, [], ◌∷◌, ◌++◌, Bytes, codes, map, str_eq,
  str_eq_iff, Bool-cases, inl, inr,
}
use ome_kafka_bridge.Config.{default_metrics_topics, default_log_topics}
use ome_kafka_bridge.Parser.Model.{telemetry, health, alerts, audit_logs, inventory, unknown}
use ome_kafka_bridge.Parser.Topics.{after_dot, kind_of, topic_kind}

abbrev pub has_dot : Bytes → Bool
has_dot [] = false
has_dot (c ∷ s) = c == b'.' || has_dot s

after_dot-append :
    (ome part : Bytes) → has_dot ome ≡ false → after_dot (ome ++ b'.' ∷ part) ≡ some part
unfolding after_dot
after_dot-append [] part h = refl
after_dot-append (c ∷ s) part h = ground (arith, after_dot-append s part)

-- Behind an identifier without a dot, the kind is that of the rest of the topic.
topic_kind-append :
    (ome part : Bytes) → has_dot ome ≡ false → topic_kind (ome ++ b'.' ∷ part) ≡ kind_of part
unfolding topic_kind
topic_kind-append ome part h = rw (after_dot-append ome part h, topic_kind) refl

after_dot-append_dotted :
    (ome rest : Bytes)
    → has_dot ome ≡ true
    → (part : Bytes) × (after_dot (ome ++ rest) ≡ some (part ++ rest))
unfolding after_dot
after_dot-append_dotted [] rest h = cc
after_dot-append_dotted (c ∷ s) rest h = elim (Bool-cases (c == b'.')) [
  | inl dot ↦ (s, rw dot refl)
  | inr none_yet ↦
      let (part, e) = after_dot-append_dotted s rest (ground arith) in (part, rw none_yet e)
]

has_dot-append : (s t : Bytes) → has_dot t ≡ true → has_dot (s ++ t) ≡ true
has_dot-append [] t h = h
has_dot-append (c ∷ s) t h = ground (arith, has_dot-append s t h)

-- No kind has a dot in its name.
kind_of-dotted : (part : Bytes) → has_dot part ≡ true → kind_of part ≡ unknown
unfolding kind_of
kind_of-dotted part h = ground (
  arith,
  str_eq_iff part (codes "telemetry"),
  str_eq_iff part (codes "health"),
  str_eq_iff part (codes "alerts"),
  str_eq_iff part (codes "auditlogs"),
  str_eq_iff part (codes "inventory"),
)

pub topic_kind-dotted :
    (ome rest : Bytes)
    → has_dot ome ≡ true
    → has_dot rest ≡ true
    → topic_kind (ome ++ rest) ≡ unknown
unfolding topic_kind
topic_kind-dotted ome rest h hr =
    let (part, e) = after_dot-append_dotted ome rest h in
    rw (e, topic_kind) (kind_of-dotted (part ++ rest) (has_dot-append part rest hr))

-- With an identifier without a dot, the default topics for metrics are those of telemetry and health,
-- and the default topics for logs those of alerts, audit logs and inventory.
pub topic_kind-default_topics :
    (ome : Bytes)
    → has_dot ome ≡ false
    → (map topic_kind (default_metrics_topics ome) ≡ telemetry ∷ health ∷ [])
      × (map topic_kind (default_log_topics ome) ≡ alerts ∷ audit_logs ∷ inventory ∷ [])
unfolding kind_of str_eq
topic_kind-default_topics ome h = (
  λ i.
      topic_kind-append ome (codes "telemetry") h i
      ∷ topic_kind-append ome (codes "health") h i
      ∷ [],
  λ i.
      topic_kind-append ome (codes "alerts") h i
      ∷ topic_kind-append ome (codes "auditlogs") h i
      ∷ topic_kind-append ome (codes "inventory") h i
      ∷ [],
)
