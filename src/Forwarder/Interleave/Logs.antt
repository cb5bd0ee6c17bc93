-- ===== src/Forwarder/Interleave/Logs.antt =====
-- A log forwarder under submissions and flushes.
use ome_kafka_bridge.Common.{Option, List, [], ◌∷◌, Bytes, filter_map}
use ome_kafka_bridge.Labels.{Labels}
use ome_kafka_bridge.Parser.Model.{LogEntry}
use ome_kafka_bridge.Lokiwriter.{Entry}
use ome_kafka_bridge.Forwarder.Logs.{
  LogForwarder, to_entry, pushed, handed, flush_logs, append_entry,
}
use ome_kafka_bridge.Forwarder.Interleave.{Action, append, take}

module _ (range : Labels → List Bytes) where
  -- Submit appends one entry at a time.
  unfoldable pub append_entries : LogForwarder → List LogEntry → LogForwarder
  unfolding append_entry
  append_entries f [] = f
  append_entries f (e ∷ entries) = append_entries (append_entry range f e) entries

  -- A log forwarder under a sequence of actions, with the batches that it hands to Push.
  unfoldable pub run_logs : LogForwarder → List (Action LogEntry) → LogForwarder × List (List Entry)
  run_logs f [] = (f, [])
  run_logs f (append entries ∷ actions) = run_logs (append_entries f entries) actions
  run_logs f (take ∷ actions) =
      let (f', entries) = flush_logs range f in
      let (f'', batches) = run_logs f' actions in (f'', handed range entries batches)

  abbrev pub entries_of : LogForwarder → List LogEntry → Option (List Entry)
  entries_of f batch = pushed range (filter_map (to_entry range f) batch)
