-- ===== src/Parser/Samples.antt =====
-- The samples of telemetry and health messages: their names, labels and times.
use ome_kafka_bridge.Common.{
  ◌≡◌, ◌∙◌, refl, arith, not, ◌&&◌, if◌then◌else◌, Option, some, List, [], ◌∷◌, ◌++◌, Bytes, codes,
  All, is_empty, ℤ, str_eq, Option-cases, inl, inr,
}
use ome_kafka_bridge.Labels.{Labels, lookup}
use ome_kafka_bridge.Labels.Laws.{HasNoDuplicates, lookup-set, lookup-merge}
use ome_kafka_bridge.Parser.Model.{
  Time, MetricSample, TelemetryMetric, TelemetryMessage, HealthMessage,
}
use ome_kafka_bridge.Parser.Values.{Platform, to_float64}
use ome_kafka_bridge.Parser.Names.{sanitize_metric_name}
use ome_kafka_bridge.Parser.{
  copy_labels, telemetry_labels, with_unit, telemetry_sample, telemetry_samples, health_labels,
  component_samples, health_sample, health_samples,
}

lookup-copy_labels :
    (src : Labels) (n : Bytes) → HasNoDuplicates src → lookup (copy_labels src) n ≡ lookup src n
unfolding copy_labels lookup
lookup-copy_labels src n h = lookup-merge src [] n h ∙ ground (arith, Option-cases (lookup src n))

lookup-with_unit :
    (p : Platform) (topic unit n : Bytes) (labels : Labels)
    → lookup (with_unit p topic unit labels) n
      ≡ (if not (is_empty unit) && str_eq (codes "unit") n then some unit else lookup labels n)
unfolding with_unit
lookup-with_unit p topic [] n labels = refl
lookup-with_unit p topic (c ∷ s) n labels = lookup-set labels (codes "unit") (c ∷ s) n

-- A sample belongs to the topic and the time of its message.
pub record IsSampleOf (topic : Bytes) (ts : Time) (s : MetricSample) : Type 0 where
  pub topic_label : lookup s.labels (codes "topic") ≡ some topic
  pub time : s.timestamp ≡ ts

module _ (p : Platform) (topic : Bytes) where
  telemetry_labels-HasNoDuplicates :
      (msg : TelemetryMessage) → HasNoDuplicates (telemetry_labels p topic msg)
  unfolding lookup str_eq
  telemetry_labels-HasNoDuplicates msg = (refl, (refl, (refl, (refl, (refl, (refl, (refl, tt)))))))

  health_labels-HasNoDuplicates :
      (msg : HealthMessage) → HasNoDuplicates (health_labels p topic msg)
  unfolding lookup str_eq
  health_labels-HasNoDuplicates msg = (refl, (refl, (refl, (refl, (refl, (refl, (refl, tt)))))))

  telemetry_labels-topic :
      (msg : TelemetryMessage) → lookup (telemetry_labels p topic msg) (codes "topic") ≡ some topic
  unfolding lookup str_eq
  telemetry_labels-topic msg = refl

  health_labels-topic :
      (msg : HealthMessage) → lookup (health_labels p topic msg) (codes "topic") ≡ some topic
  unfolding lookup str_eq
  health_labels-topic msg = refl

  -- A metric whose value is a number is a sample, and no other is.
  telemetry_sample-some :
      (base : Labels) (ts : Time) (m : TelemetryMetric) (s : MetricSample)
      → telemetry_sample p topic base ts m ≡ some s
      → (s.name ≡ sanitize_metric_name (codes "ome_telemetry_" ++ m.metric_name))
        × (s.labels ≡ with_unit p topic m.unit (copy_labels base))
        × (to_float64 p m.metric_value ≡ some s.value)
        × (s.timestamp ≡ ts)
  unfolding telemetry_sample
  telemetry_sample-some base ts m s h = ground arith

  -- The labels of a telemetry sample are those of its device, with the metric's unit if there is one.
  pub lookup-telemetry_sample :
      (msg : TelemetryMessage) (ts : Time) (m : TelemetryMetric) (s : MetricSample) (n : Bytes)
      → telemetry_sample p topic (telemetry_labels p topic msg) ts m ≡ some s
      → lookup s.labels n ≡ (
          if not (is_empty m.unit) && str_eq (codes "unit") n
          then some m.unit
          else lookup (telemetry_labels p topic msg) n)
  lookup-telemetry_sample msg ts m s n h =
      let (name, labels, value, time) =
        telemetry_sample-some (telemetry_labels p topic msg) ts m s h in
      rw
        (
          labels,
          lookup-with_unit p topic m.unit n (copy_labels (telemetry_labels p topic msg)),
          lookup-copy_labels (telemetry_labels p topic msg) n
              (telemetry_labels-HasNoDuplicates msg),
        )
        refl

  other_label :
      (unit : Bytes) {o : Option Bytes}
      → (if not (is_empty unit) && str_eq (codes "unit") (codes "topic") then some unit else o) ≡ o
  unfolding str_eq
  other_label unit = ground arith

  not_component :
      (component : Bytes) {o : Option Bytes}
      → (if str_eq (codes "component") (codes "topic") then some component else o) ≡ o
  unfolding str_eq
  not_component component = refl

  telemetry_sample-IsSampleOf :
      (msg : TelemetryMessage) (ts : Time) (m : TelemetryMetric) (s : MetricSample)
      → telemetry_sample p topic (telemetry_labels p topic msg) ts m ≡ some s
      → IsSampleOf topic ts s
  telemetry_sample-IsSampleOf msg ts m s h =
      let (name, labels, value, time) =
        telemetry_sample-some (telemetry_labels p topic msg) ts m s h in
      let label = lookup-telemetry_sample msg ts m s (codes "topic") h in
      record { topic_label = label ∙ other_label m.unit ∙ telemetry_labels-topic msg; time = time }

  pub telemetry_samples-IsSampleOf :
      (msg : TelemetryMessage) (ts : Time) (ms : List TelemetryMetric)
      → All (IsSampleOf topic ts) (telemetry_samples p topic (telemetry_labels p topic msg) ts ms)
  unfolding telemetry_samples
  telemetry_samples-IsSampleOf msg ts [] = tt
  telemetry_samples-IsSampleOf msg ts (m ∷ ms) =
      let rest = telemetry_samples-IsSampleOf msg ts ms in
      elim (Option-cases (telemetry_sample p topic (telemetry_labels p topic msg) ts m)) [
        | inl skipped ↦ rw (skipped, telemetry_samples) rest
        | inr (s, kept) ↦
            rw (kept, telemetry_samples) (telemetry_sample-IsSampleOf msg ts m s kept, rest)
      ]

  health_labels-copied :
      (msg : HealthMessage)
      → lookup (copy_labels (health_labels p topic msg)) (codes "topic") ≡ some topic
  health_labels-copied msg =
      lookup-copy_labels (health_labels p topic msg) (codes "topic")
        (health_labels-HasNoDuplicates msg)
      ∙ health_labels-topic msg

  component_samples-IsSampleOf :
      (msg : HealthMessage) (ts : Time) (components : List (Bytes × ℤ))
      → All
          (IsSampleOf topic ts)
          (component_samples p topic (health_labels p topic msg) ts components)
  unfolding component_samples
  component_samples-IsSampleOf msg ts [] = tt
  component_samples-IsSampleOf msg ts ((component, status) ∷ rest) = (
    record {
      topic_label =
          lookup-set (copy_labels (health_labels p topic msg)) (codes "component") component
            (codes "topic")
          ∙ not_component component
          ∙ health_labels-copied msg;
      time = refl;
    },
    component_samples-IsSampleOf msg ts rest,
  )

  health_sample-IsSampleOf :
      (msg : HealthMessage) (ts : Time) (name : Bytes) (value : ℤ)
      → IsSampleOf topic ts
          (health_sample p topic name (copy_labels (health_labels p topic msg)) ts value)
  health_sample-IsSampleOf msg ts name value = record {
    topic_label = health_labels-copied msg;
    time = refl;
  }

  pub health_samples-IsSampleOf :
      (msg : HealthMessage) (ts : Time) → All (IsSampleOf topic ts) (health_samples p topic msg ts)
  unfolding health_samples
  health_samples-IsSampleOf msg ts = (
    health_sample-IsSampleOf msg ts _ _,
    (
      health_sample-IsSampleOf msg ts _ _,
      component_samples-IsSampleOf msg ts (p.range_components msg.component_health_map),
    ),
  )
