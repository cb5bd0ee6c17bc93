-- ===== src/Main.antt =====
-- main.go: how the parts are started, and what becomes of a message. The counters of messages are
-- lists with an item for each increment, the latest first. Logging and the latency histogram are left
-- out.
pub mod Routing
pub mod Events
pub mod Tasks
pub mod Start
pub mod Panics
pub mod Delivery
pub mod Process
pub mod Api
use ome_kafka_bridge.Common.{
  Bool, true, false, if◌then◌else◌, ◌&&◌, not, Option, none, some, List, [], ◌∷◌, ◌++◌, map, Bytes,
  codes, contains, is_empty, is_some, Result, ok, err,
}
use ome_kafka_bridge.Labels.{Labels}
use ome_kafka_bridge.Config.{Config, load}
use ome_kafka_bridge.Broker.Outcome.{Outcome, done, bind}
use ome_kafka_bridge.Broker.State.{Message}
use ome_kafka_bridge.Parser.Model.{MetricSample, LogEntry, kind_name, ParsedMessage}
use ome_kafka_bridge.Parser.Values.{Platform}
use ome_kafka_bridge.Parser.{parse}
use ome_kafka_bridge.Relabel.{Regexp}
use ome_kafka_bridge.Lokiwriter.{Entry}
use ome_kafka_bridge.Forwarder.Client.{NewError, Certificates}
use ome_kafka_bridge.Forwarder.Metrics.{MetricsForwarder, new_metrics_forwarder, submit}
use ome_kafka_bridge.Forwarder.Logs.{LogForwarder, new_log_forwarder, submit_entry}
use ome_kafka_bridge.Cache
use ome_kafka_bridge.Cache.{Cache, CachedEntry, CacheError, Retry, retry_metrics, retry_logs}
use ome_kafka_bridge.Cache.Files.{FileSystem}

-- What processMessage and the callbacks of the cache work on.
pub record Pipeline : Type 0 where
  pub metrics_topics : List Bytes
  pub log_topics : List Bytes
  pub metrics_fwd : MetricsForwarder
  pub log_fwd : LogForwarder
  pub received : List (Bytes × Bytes)
  pub dropped : List (Bytes × Bytes)

-- What a step makes the forwarders send: bodies to remote_write, and batches to Loki.
pub record Sent : Type 0 where
  pub bodies : List Bytes
  pub batches : List (List Entry)

abbrev pub nothing : Sent
nothing = record { bodies = []; batches = [] }

abbrev pub to_list {ℓ} : {A : Type ℓ} → Option A → List A
to_list none = []
to_list (some a) = a ∷ []

abbrev pub both : Sent → Sent → Sent
both s t = record { bodies = s.bodies ++ t.bodies; batches = s.batches ++ t.batches }

-- The order in which Go ranges over a map, and snappy.Encode, as the forwarders take them.
module _ (range : Labels → List Bytes) (order : Labels → Labels) (compress : Bytes → Bytes) where
  unfoldable pub submit_metrics : Pipeline → List MetricSample → Pipeline × Sent
  submit_metrics p samples =
      let (fwd, body) = submit range order compress p.metrics_fwd samples in
      (record p { metrics_fwd = fwd }, record { bodies = to_list body; batches = [] })

  unfoldable pub submit_log : Pipeline → LogEntry → Pipeline × Sent
  submit_log p e =
      let (fwd, batch) = submit_entry range p.log_fwd e in
      (record p { log_fwd = fwd }, record { bodies = []; batches = to_list batch })

  -- `if metricsTopics[msg.Topic] && len(parsed.Metrics) > 0`
  unfoldable pub route_metrics : Bytes → List MetricSample → Pipeline → Pipeline × Sent
  route_metrics topic samples p =
      if contains p.metrics_topics topic && not (is_empty samples)
      then submit_metrics p samples
      else (p, nothing)

  -- `if logTopics[msg.Topic] && parsed.LogEntry != nil`
  unfoldable pub route_log : Bytes → Option LogEntry → Pipeline → Pipeline × Sent
  route_log topic none p = (p, nothing)
  route_log topic (some e) p = if contains p.log_topics topic then submit_log p e else (p, nothing)

  unfoldable pub route : Bytes → ParsedMessage → Pipeline → Pipeline × Sent
  route topic parsed p =
      let p' = record p { received = (topic, kind_name parsed.kind) ∷ p.received } in
      let (p'', bodies) = route_metrics topic parsed.metrics p' in
      let (p''', batches) = route_log topic parsed.log_entry p'' in (p''', both bodies batches)

  unfoldable pub process_message : Platform → Message → Pipeline → Pipeline × Sent
  process_message platform msg p = elim (parse platform msg.topic msg.value) [
    | none ↦ (record p { dropped = (msg.topic, codes "parse_error") ∷ p.dropped }, nothing)
    | some parsed ↦ route msg.topic parsed p
  ]

  -- `for _, e := range entries { logFwd.Submit(e) }`
  unfoldable pub submit_logs : List LogEntry → Pipeline → Pipeline × Sent
  submit_logs [] p = (p, nothing)
  submit_logs (e ∷ entries) p =
      let (p', first) = submit_log p e in
      let (p'', rest) = submit_logs entries p' in (p'', both first rest)

  -- The callbacks that main gives the cache.
  unfoldable pub on_retry : Retry → Pipeline → Pipeline × Sent
  on_retry (retry_metrics samples) p = submit_metrics p samples
  on_retry (retry_logs entries) p = submit_logs entries p
