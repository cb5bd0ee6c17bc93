-- ===== src/Forwarder/Logs.antt =====
-- LogForwarder: log entries, pushed to Loki. A method returns the forwarder as it leaves it, and the
-- entries that it hands to Push, if any; what becomes of the push is only logged.
use ome_kafka_bridge.Common.{
  if◌then◌else◌, Option, none, some, List, [], ◌∷◌, ◌++◌, Bytes, length, filter_map, Result, ok,
  err,
}
use ome_kafka_bridge.Config.{LokiConfig, RelabelConfig}
use ome_kafka_bridge.Labels.{Labels, merge}
use ome_kafka_bridge.Broker.Outcome.{Outcome, done}
use ome_kafka_bridge.Parser.Model.{LogEntry}
use ome_kafka_bridge.Relabel
use ome_kafka_bridge.Relabel.{Regexp, CompiledRule}
use ome_kafka_bridge.Lokiwriter.{Entry}
use ome_kafka_bridge.Forwarder.Client.{
  NewError, compiling_rules, building_client, Certificates, build_http_client, start_ticker,
}
use ome_kafka_bridge.Forwarder.Metrics.{LoopEvent, tick, stop, reaches}

-- The writer and the ticker serve Push and the loop, and are left out.
pub record LogForwarder : Type 0 where
  pub cfg : LokiConfig
  pub extra_labels : Labels
  pub rules : List CompiledRule
  pub pending : List LogEntry

module _ (compile : Bytes → Option Regexp) (certs : Certificates) where
  unfoldable pub new_log_forwarder :
      LokiConfig → Labels → List RelabelConfig → Outcome (Result NewError LogForwarder)
  unfolding build_http_client start_ticker Relabel.new
  new_log_forwarder cfg extra relabel_cfgs = elim (Relabel.new compile relabel_cfgs) [
    | none ↦ done (err compiling_rules)
    | some rules ↦ elim (build_http_client certs cfg.tls cfg.timeout) [
      | err e ↦ done (err (building_client e))
      | ok client ↦
          start_ticker cfg.flush_interval
            (ok (record { cfg = cfg; extra_labels = extra; rules = rules; pending = [] }))
    ]
  ]

-- The label set of an entry before relabelling: its own labels over the extra ones.
unfoldable pub stream_labels_of : Labels → LogEntry → Labels
unfolding merge
stream_labels_of extra e = merge (merge [] extra) e.stream_labels

-- The names that a rule visits when it ranges over the labels.
module _ (range : Labels → List Bytes) where
  -- An entry that a rule drops is not pushed.
  unfoldable pub to_entry : LogForwarder → LogEntry → Option Entry
  to_entry f e =
      let (keep, labels) = Relabel.apply range f.rules (stream_labels_of f.extra_labels e) in
      if keep
      then some (record { stream_labels = labels; timestamp = e.timestamp; line = e.line })
      else none

  abbrev pub pushed : List Entry → Option (List Entry)
  pushed [] = none
  pushed (e ∷ entries) = some (e ∷ entries)

  unfoldable pub flush_entries : List LogEntry → LogForwarder → LogForwarder × Option (List Entry)
  flush_entries [] f = (f, none)
  flush_entries (e ∷ batch) f =
      (record f { pending = [] }, pushed (filter_map (to_entry f) (e ∷ batch)))

  unfoldable pub flush_logs : LogForwarder → LogForwarder × Option (List Entry)
  unfolding flush_entries
  flush_logs f = flush_entries f.pending f

  -- The part of Submit that holds the lock.
  unfoldable pub append_entry : LogForwarder → LogEntry → LogForwarder
  append_entry f e = record f { pending = f.pending ++ e ∷ [] }

  unfoldable pub submit_entry : LogForwarder → LogEntry → LogForwarder × Option (List Entry)
  unfolding flush_logs append_entry
  submit_entry f e =
      let f' = append_entry f e in
      if reaches f.cfg.batch_size (length f'.pending) then flush_logs f' else (f', none)

  abbrev pub handed : Option (List Entry) → List (List Entry) → List (List Entry)
  handed none batches = batches
  handed (some entries) batches = entries ∷ batches

  -- The batches that the flush loop pushes, until it is stopped.
  unfoldable pub log_flush_loop : LogForwarder → List LoopEvent → LogForwarder × List (List Entry)
  log_flush_loop f [] = (f, [])
  log_flush_loop f (tick ∷ events) =
      let (f', entries) = flush_logs f in
      let (f'', batches) = log_flush_loop f' events in (f'', handed entries batches)
  log_flush_loop f (stop ∷ events) = let (f', entries) = flush_logs f in (f', handed entries [])
