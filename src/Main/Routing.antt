-- ===== src/Main/Routing.antt =====
-- Which forwarder a message reaches, and how it is counted.
use ome_kafka_bridge.Common.{
  suc, ◌+◌, ◌≡◌, ◌∙◌, refl, arith, Bool, true, false, ◌||◌, not, Option-cases, inl, inr, Option,
  none, some, List, [], ◌∷◌, Bytes, length, is_empty, is_some,
}
use ome_kafka_bridge.Labels.{Labels}
use ome_kafka_bridge.Broker.State.{Message}
use ome_kafka_bridge.Parser.Model.{kind_name, MetricSample, LogEntry, ParsedMessage}
use ome_kafka_bridge.Parser.Topics.{topic_kind}
use ome_kafka_bridge.Parser.Values.{Platform}
use ome_kafka_bridge.Parser.{parse}
use ome_kafka_bridge.Parser.Messages.{is_metrics, parse-IsParsed}
use ome_kafka_bridge.Main.{
  Pipeline, Sent, nothing, submit_metrics, submit_log, route_metrics, route_log, route,
  process_message,
}

-- What a message of metrics, or of anything else, leaves alone.
abbrev Untouched : Bool → Pipeline → Pipeline → Sent → Type 0
Untouched true p p' sent = (p'.log_fwd ≡ p.log_fwd) × (sent.batches ≡ [])
Untouched false p p' sent = (p'.metrics_fwd ≡ p.metrics_fwd) × (sent.bodies ≡ [])

-- The message is counted once, and only the forwarder of its kind is reached.
pub record IsRouted (metrics : Bool) (p p' : Pipeline) (sent : Sent) : Type 0 where
  pub counted : length p'.received + length p'.dropped ≡ suc (length p.received + length p.dropped)
  pub untouched : Untouched metrics p p' sent

Untouched-refl :
    (metrics : Bool) (p : Pipeline) (dropped : List (Bytes × Bytes))
    → Untouched metrics p (record p { dropped = dropped }) nothing
Untouched-refl true p dropped = (refl, refl)
Untouched-refl false p dropped = (refl, refl)

module _ (range : Labels → List Bytes) (order : Labels → Labels) (compress : Bytes → Bytes)
    (topic : Bytes) where
  route_metrics-counters :
      (samples : List MetricSample) (p : Pipeline)
      → ((route_metrics range order compress topic samples p).0.received ≡ p.received)
        × ((route_metrics range order compress topic samples p).0.dropped ≡ p.dropped)
        × ((route_metrics range order compress topic samples p).0.log_fwd ≡ p.log_fwd)
        × ((route_metrics range order compress topic samples p).1.batches ≡ [])
  unfolding route_metrics submit_metrics
  route_metrics-counters samples p = ground arith

  pub route_log-counters :
      (entry : Option LogEntry) (p : Pipeline)
      → ((route_log range order compress topic entry p).0.received ≡ p.received)
        × ((route_log range order compress topic entry p).0.dropped ≡ p.dropped)
        × ((route_log range order compress topic entry p).0.metrics_fwd ≡ p.metrics_fwd)
        × ((route_log range order compress topic entry p).1.bodies ≡ [])
  unfolding route_log submit_log
  route_log-counters entry p = ground arith

  route_metrics-empty :
      (samples : List MetricSample) (p : Pipeline)
      → is_empty samples ≡ true
      → route_metrics range order compress topic samples p ≡ (p, nothing)
  unfolding route_metrics
  route_metrics-empty samples p h = ground arith

  route_log-none :
      (entry : Option LogEntry) (p : Pipeline)
      → is_some entry ≡ false
      → route_log range order compress topic entry p ≡ (p, nothing)
  unfolding route_log
  route_log-none none p h = refl
  route_log-none (some e) p h = cc

  route-Untouched :
      (metrics : Bool) (parsed : ParsedMessage) (p : Pipeline)
      → (is_empty parsed.metrics || metrics) ≡ true
      → is_some parsed.log_entry ≡ not metrics
      → Untouched metrics p
          (route range order compress topic parsed p).0
          (route range order compress topic parsed p).1
  unfolding route
  route-Untouched true parsed p metrics_only logs_only =
      let p' : Pipeline = record p { received = (topic, kind_name parsed.kind) ∷ p.received } in
      let (counted, dropped, fwd, batches) = route_metrics-counters parsed.metrics p' in
      rw
        (route_log-none parsed.log_entry
          (route_metrics range order compress topic parsed.metrics p').0 logs_only)
        (fwd, rw batches refl)
  route-Untouched false parsed p metrics_only logs_only =
      let p' : Pipeline = record p { received = (topic, kind_name parsed.kind) ∷ p.received } in
      let empty : is_empty parsed.metrics ≡ true = ground arith in
      let (counted, dropped, fwd, bodies) = route_log-counters parsed.log_entry p' in
      rw (route_metrics-empty parsed.metrics p' empty) (fwd, bodies)

  route-counted :
      (parsed : ParsedMessage) (p : Pipeline)
      → ((route range order compress topic parsed p).0.received
          ≡ (topic, kind_name parsed.kind) ∷ p.received)
        × ((route range order compress topic parsed p).0.dropped ≡ p.dropped)
  unfolding route
  route-counted parsed p =
      let p' : Pipeline = record p { received = (topic, kind_name parsed.kind) ∷ p.received } in
      let p'' : Pipeline = (route_metrics range order compress topic parsed.metrics p').0 in
      let (received, dropped, fwd, batches) = route_metrics-counters parsed.metrics p' in
      let (received', dropped', fwd', bodies) = route_log-counters parsed.log_entry p'' in
      (received' ∙ received, dropped' ∙ dropped)

module _ (range : Labels → List Bytes) (order : Labels → Labels) (compress : Bytes → Bytes)
    (platform : Platform) where
  -- Whatever the routing and the decoders are: a message is counted once, as received or as dropped.
  -- A message of telemetry or health never reaches the log forwarder, and any other never the metrics
  -- forwarder: its queue stays as it is, and it sends nothing.
  pub process_message-IsRouted :
      (msg : Message) (p : Pipeline)
      → IsRouted
          (is_metrics (topic_kind msg.topic))
          p
          (process_message range order compress platform msg p).0
          (process_message range order compress platform msg p).1
  unfolding process_message
  process_message-IsRouted msg p = elim (Option-cases (parse platform msg.topic msg.value)) [
    | inl bad ↦
        rw (bad, process_message)
          (record {
            counted = omega arith;
            untouched = Untouched-refl (is_metrics (topic_kind msg.topic)) p _;
          })
    | inr (parsed, good) ↦
        (let is_parsed = parse-IsParsed platform msg.topic msg.value parsed good in
          let (received, dropped) = route-counted range order compress msg.topic parsed p in
          rw (good, process_message)
            (record {
              counted = rw (received, dropped) (omega arith);
              untouched =
                  route-Untouched range order compress msg.topic (is_metrics (topic_kind msg.topic))
                    parsed p is_parsed.metrics_only is_parsed.logs_only;
            }))
  ]
