-- ===== src/Cache/Stored.antt =====
-- A batch that is stored is retried by a later replay.
use ome_kafka_bridge.Common.{
  ℕ, ◌≡◌, refl, arith, true, false, Option, none, some, List, ◌++◌, Bytes, codes, take, length, ◌≤◌,
  is_empty, less, sub, str_eq, IsIn,
}
use ome_kafka_bridge.Parser.Model.{Time, MetricSample, LogEntry}
use ome_kafka_bridge.Cache.{
  CachedEntry, Cache, metrics_entry, logs_entry, Retry, retry_metrics, retry_logs, retry_of,
  entries_of, write, store_metrics, store_logs, replay_all, evict_if_needed,
}
use ome_kafka_bridge.Cache.Files.{FileSystem, KeepsOthers, KeepsWritten}
use ome_kafka_bridge.Cache.Evict.{Distinct}
use ome_kafka_bridge.Cache.Listed.{IsIn-filter_map, listed-IsIn}
use ome_kafka_bridge.Cache.Replay.{verdict, retry, replay_all-eq}

module _ (fs : FileSystem) (marshal : CachedEntry → Option Bytes)
    (unmarshal : Bytes → Option CachedEntry) (c : Cache) where
  abbrev pub path_of : CachedEntry → Bytes
  path_of entry = fs.join c.cfg.dir (entry.id ++ codes ".json")

  -- What is written is read back and decoded.
  write-read :
      (back : KeepsWritten fs) (entry : CachedEntry) (data_ : Bytes) (d d' : fs.Disk)
      → write fs marshal unmarshal c entry d ≡ (d', none)
      → marshal entry ≡ some data_
      → fs.read_file d' (path_of entry) ≡ some data_
  unfolding write
  write-read back entry data_ d d' h encoded = ground (
    arith,
    back.read_file-write_file (evict_if_needed fs marshal unmarshal c d) (path_of entry) data_ d',
  )

  -- What is written is listed, and a replay with enough rounds comes to it.
  write-listed :
      (back : KeepsWritten fs) (rounds : ℕ) (entry : CachedEntry) (data_ : Bytes) (d d' : fs.Disk)
      (files : List Bytes)
      → write fs marshal unmarshal c entry d ≡ (d', none)
      → marshal entry ≡ some data_
      → fs.glob d' (fs.join c.cfg.dir (codes "*.json")) ≡ some files
      → length (entries_of fs marshal unmarshal c d') ≤ rounds
      → IsIn (path_of entry) (take rounds (entries_of fs marshal unmarshal c d'))
  unfolding write
  write-listed back rounds entry data_ d d' files h encoded globbed enough =
      let after = evict_if_needed fs marshal unmarshal c d in
      let written : fs.write_file after (path_of entry) data_ ≡ (d', false) = ground arith in
      listed-IsIn fs marshal unmarshal c rounds d' files (path_of entry) globbed
        (back.glob-write_file after c.cfg.dir entry.id data_ d' files written globbed) enough

  fresh-verdict :
      (cutoff : Time) (entry : CachedEntry) (data_ : Bytes) (r : Retry) (d : fs.Disk)
      → fs.read_file d (path_of entry) ≡ some data_
      → unmarshal data_ ≡ some entry
      → less entry.created_at cutoff ≡ false
      → retry_of fs marshal unmarshal c entry ≡ some r
      → retry (verdict fs marshal unmarshal c cutoff d (path_of entry)) ≡ some r
  fresh-verdict cutoff entry data_ r d stored decoded fresh kind =
      rw (stored, decoded, fresh, kind) refl

  -- A file that is written, and decodes to its entry, is retried if it is not too old.
  write-replayed :
      (others : KeepsOthers fs) (back : KeepsWritten fs) (rounds : ℕ) (later : Time)
      (entry : CachedEntry) (data_ : Bytes) (r : Retry) (d d' : fs.Disk) (files : List Bytes)
      → write fs marshal unmarshal c entry d ≡ (d', none)
      → marshal entry ≡ some data_
      → unmarshal data_ ≡ some entry
      → less entry.created_at (sub later c.cfg.max_age) ≡ false
      → retry_of fs marshal unmarshal c entry ≡ some r
      → Distinct (entries_of fs marshal unmarshal c d')
      → fs.glob d' (fs.join c.cfg.dir (codes "*.json")) ≡ some files
      → length (entries_of fs marshal unmarshal c d') ≤ rounds
      → IsIn r (replay_all fs marshal unmarshal rounds c later d').1
  write-replayed others back rounds later entry data_ r d d' files written encoded decoded fresh
        kind distinct globbed enough =
      rw (replay_all-eq fs marshal unmarshal others rounds c later d' distinct) (
        IsIn-filter_map _ (path_of entry) r _
          (fresh-verdict (sub later c.cfg.max_age) entry data_ r d'
            (write-read back entry data_ d d' written encoded) decoded fresh kind)
          (write-listed back rounds entry data_ d d' files written encoded globbed enough))

  module _ (others : KeepsOthers fs) (back : KeepsWritten fs) (rounds : ℕ)
      (now created later : Time) (data_ : Bytes) (d d' : fs.Disk) (files : List Bytes) where
    -- A batch of samples that is stored without an error is handed to the callback of a later replay
    -- that has time for every file. The callback is set, the batch is not empty, and it is not older
    -- than the maximal age; its JSON decodes to the entry; the directory can be listed, with distinct
    -- names; what is written is read back and listed, and removing a file leaves the others as they
    -- are.
    pub store_metrics-replayed :
        (samples : List MetricSample)
        → store_metrics fs marshal unmarshal (some c) now created samples d ≡ (d', none)
        → c.on_retry_metrics ≡ true
        → is_empty samples ≡ false
        → less created (sub later c.cfg.max_age) ≡ false
        → marshal (metrics_entry now created samples) ≡ some data_
        → unmarshal data_ ≡ some (metrics_entry now created samples)
        → Distinct (entries_of fs marshal unmarshal c d')
        → fs.glob d' (fs.join c.cfg.dir (codes "*.json")) ≡ some files
        → length (entries_of fs marshal unmarshal c d') ≤ rounds
        → IsIn (retry_metrics samples) (replay_all fs marshal unmarshal rounds c later d').1
    unfolding store_metrics retry_of str_eq
    store_metrics-replayed samples stored callback filled fresh encoded decoded distinct globbed
          enough =
        write-replayed others back rounds later (metrics_entry now created samples) data_
          (retry_metrics samples) d d' files stored encoded decoded fresh (ground arith) distinct
          globbed enough

    -- A batch of log entries that is stored without an error is handed to the callback of a later
    -- replay that has time for every file. The callback is set, the batch is not empty, and it is not
    -- older than the maximal age; its JSON decodes to the entry; the directory can be listed, with
    -- distinct names; what is written is read back and listed, and removing a file leaves the others
    -- as they are.
    pub store_logs-replayed :
        (entries : List LogEntry)
        → store_logs fs marshal unmarshal (some c) now created entries d ≡ (d', none)
        → c.on_retry_logs ≡ true
        → is_empty entries ≡ false
        → less created (sub later c.cfg.max_age) ≡ false
        → marshal (logs_entry now created entries) ≡ some data_
        → unmarshal data_ ≡ some (logs_entry now created entries)
        → Distinct (entries_of fs marshal unmarshal c d')
        → fs.glob d' (fs.join c.cfg.dir (codes "*.json")) ≡ some files
        → length (entries_of fs marshal unmarshal c d') ≤ rounds
        → IsIn (retry_logs entries) (replay_all fs marshal unmarshal rounds c later d').1
    unfolding store_logs retry_of str_eq
    store_logs-replayed entries stored callback filled fresh encoded decoded distinct globbed
          enough =
        write-replayed others back rounds later (logs_entry now created entries) data_
          (retry_logs entries) d d' files stored encoded decoded fresh (ground arith) distinct
          globbed enough
