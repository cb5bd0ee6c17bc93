-- ===== src/Examples/Spool.antt =====
-- A cache in memory of two files of 3 bytes, one of which is no entry, and batches that are stored in
-- an empty one.
use ome_kafka_bridge.Common.{
  IsIn, map, arith, ◌≡◌, refl, true, if◌then◌else◌, Option, none, some, [], ◌∷◌, Bytes, codes, take,
  map, arith, pos, negsuc, sort, text_leb, decimal, str_eq,
}
use ome_kafka_bridge.Labels.{Labels, set}
use ome_kafka_bridge.Config.{CacheConfig}
use ome_kafka_bridge.Cache.{
  CachedEntry, Cache, metrics_entry, logs_entry, retry_metrics, max_bytes_of, list_entries,
  entries_of, evict_loop, evict_if_needed, write, store_metrics, replay_all,
}
use ome_kafka_bridge.Cache.Memory.{memory, memory-KeepsOthers, memory-KeepsWritten}
use ome_kafka_bridge.Cache.Files.{remove_all}
use ome_kafka_bridge.Cache.Evict.{Distinct, Evicts, evict_if_needed-Evicts}
use ome_kafka_bridge.Cache.Replay.{going, retries, replay_all-eq}
use ome_kafka_bridge.Cache.Stored.{store_metrics-replayed}
use ome_kafka_bridge.Examples.Messages.{sample}
use ome_kafka_bridge.Examples.Batches.{entry}

-- A negative limit: every file is too much.
abbrev pub config : CacheConfig
config = record {
  enabled = true;
  dir = codes "c";
  max_size_mb = negsuc 0;
  retry_interval = pos 1;
  max_age = pos 100;
}

abbrev cache : Cache
cache = record { cfg = config; on_retry_metrics = true; on_retry_logs = true }

abbrev disk : Labels
disk = (codes "c/logs_9.json", codes "bad") ∷ (codes "c/metrics_5.json", codes "old") ∷ []

abbrev stored_samples : CachedEntry
stored_samples = metrics_entry (pos 5) (pos 5) (sample ∷ [])

abbrev stored_logs : CachedEntry
stored_logs = logs_entry (pos 9) (pos 9) (entry ∷ [])

-- One text for all batches of samples, and one for all others.
abbrev pub encode_json : CachedEntry → Option Bytes
encode_json e = elim e.metrics [ [] ↦ some (codes "log") | _ ∷ _ ↦ some (codes "old") ]

abbrev pub decode_json : Bytes → Option CachedEntry
decode_json data_ =
    if str_eq data_ (codes "old")
    then some stored_samples
    else if str_eq data_ (codes "log")
    then some stored_logs
    else none

disk-Distinct : Distinct (entries_of memory encode_json decode_json cache disk)
unfolding entries_of list_entries sort text_leb
disk-Distinct = (((λ e. cc), tt), (tt, tt))

evict_if_needed-Evicts_example :
    Evicts memory encode_json decode_json
      (max_bytes_of config)
      disk
      (entries_of memory encode_json decode_json cache disk)
      (evict_if_needed memory encode_json decode_json cache disk)
evict_if_needed-Evicts_example =
    evict_if_needed-Evicts memory encode_json decode_json memory-KeepsOthers cache disk
      disk-Distinct

replay_all-eq_example : replay_all memory encode_json decode_json 8 cache (pos 50) disk ≡ (
  remove_all memory disk (
      going memory encode_json decode_json cache
        (negsuc 49)
        disk
        (take 8 (entries_of memory encode_json decode_json cache disk))),
  retries memory encode_json decode_json cache
      (negsuc 49)
      disk
      (take 8 (entries_of memory encode_json decode_json cache disk)),
)
replay_all-eq_example =
    replay_all-eq memory encode_json decode_json memory-KeepsOthers 8 cache (pos 50) disk
      disk-Distinct

abbrev pub samples_disk : Labels
samples_disk = (codes "c/metrics_5.json", codes "old") ∷ []

samples-stored :
    store_metrics memory encode_json decode_json (some cache) (pos 5) (pos 5) (sample ∷ []) []
    ≡ (samples_disk, none)
unfolding store_metrics write evict_if_needed set evict_loop entries_of list_entries sort decimal
samples-stored = refl

store_metrics-replayed_example :
    IsIn
      (retry_metrics (sample ∷ []))
      (replay_all memory encode_json decode_json 8 cache (pos 50) samples_disk).1
unfolding str_eq decimal entries_of list_entries sort
store_metrics-replayed_example =
    store_metrics-replayed memory encode_json decode_json cache memory-KeepsOthers
      memory-KeepsWritten 8 (pos 5) (pos 5) (pos 50) (codes "old") [] samples_disk
      (map (λ (name, _). name) samples_disk) (sample ∷ []) samples-stored refl refl refl refl refl
      (tt, tt) refl (omega arith)
