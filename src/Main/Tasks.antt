-- ===== src/Main/Tasks.antt =====
-- What a goroutine does with the forwarders, a piece under the lock at a time: Submit appends, and
-- when the batch is full it flushes, after the lock is released in between.
use ome_kafka_bridge.Common.{
  Bool, if◌then◌else◌, ◌&&◌, not, Option, none, some, List, [], ◌∷◌, ◌++◌, map, Bytes, codes,
  length, contains, is_empty,
}
use ome_kafka_bridge.Labels.{Labels}
use ome_kafka_bridge.Broker.State.{Message}
use ome_kafka_bridge.Parser.Model.{MetricSample, LogEntry, kind_name, ParsedMessage}
use ome_kafka_bridge.Parser.Values.{Platform}
use ome_kafka_bridge.Parser.{parse}
use ome_kafka_bridge.Forwarder.Metrics.{append_samples, reaches, flush}
use ome_kafka_bridge.Forwarder.Logs.{append_entry, flush_logs}
use ome_kafka_bridge.Cache.{Retry, retry_metrics, retry_logs}
use ome_kafka_bridge.Main.{Pipeline, Sent, nothing, to_list}

-- The append of Submit, and a flush, of each forwarder.
pub data Task : Type 0 where
  add_samples : List MetricSample → Task
  add_entry : LogEntry → Task
  flush_samples flush_entries : Task

module _ (range : Labels → List Bytes) (order : Labels → Labels) (compress : Bytes → Bytes) where
  unfoldable pub perform : Task → Pipeline → Pipeline × Sent
  unfolding append_samples append_entry
  perform (add_samples samples) p = (
    record p { metrics_fwd = append_samples range order compress p.metrics_fwd samples },
    nothing,
  )
  perform (add_entry e) p = (record p { log_fwd = append_entry range p.log_fwd e }, nothing)
  perform flush_samples p =
      let (fwd, body) = flush range order compress p.metrics_fwd in
      (record p { metrics_fwd = fwd }, record { bodies = to_list body; batches = [] })
  perform flush_entries p =
      let (fwd, batch) = flush_logs range p.log_fwd in
      (record p { log_fwd = fwd }, record { bodies = []; batches = to_list batch })

  abbrev task_if : Bool → Task → List Task
  task_if b t = if b then t ∷ [] else []

  -- What Submit goes on to do: the length is the one that it saw under the lock.
  unfoldable pub afterwards : Task → Pipeline → List Task
  unfolding append_samples append_entry
  afterwards (add_samples samples) p =
      task_if
        (reaches p.metrics_fwd.cfg.batch_size
          (length (append_samples range order compress p.metrics_fwd samples).pending))
        flush_samples
  afterwards (add_entry e) p =
      task_if (reaches p.log_fwd.cfg.batch_size (length (append_entry range p.log_fwd e).pending))
        flush_entries
  afterwards flush_samples p = []
  afterwards flush_entries p = []

  unfoldable pub entry_tasks : Bool → Option LogEntry → List Task
  entry_tasks routed none = []
  entry_tasks routed (some e) = task_if routed (add_entry e)

  unfoldable pub route_tasks : Bytes → ParsedMessage → Pipeline → List Task
  unfolding entry_tasks
  route_tasks topic parsed p =
      task_if (contains p.metrics_topics topic && not (is_empty parsed.metrics))
        (add_samples parsed.metrics)
      ++ entry_tasks (contains p.log_topics topic) parsed.log_entry

  -- processMessage up to the calls of Submit: the counters, and what is to be done.
  unfoldable pub take_message : Platform → Message → Pipeline → Pipeline × List Task
  unfolding route_tasks
  take_message platform msg p = elim (parse platform msg.topic msg.value) [
    | none ↦ (record p { dropped = (msg.topic, codes "parse_error") ∷ p.dropped }, [])
    | some parsed ↦ (
      record p { received = (msg.topic, kind_name parsed.kind) ∷ p.received },
      route_tasks msg.topic parsed p,
    )
  ]

-- The callbacks of the cache: one Submit of the samples, or one for each entry.
unfoldable pub retry_tasks : Retry → List Task
retry_tasks (retry_metrics samples) = add_samples samples ∷ []
retry_tasks (retry_logs entries) = map add_entry entries
