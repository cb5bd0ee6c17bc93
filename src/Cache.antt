-- ===== src/Cache.antt =====
-- internal/cache/cache.go: batches that are kept on disk and retried. A disk is the state of the file
-- system; the JSON encoder and the clock are parameters. An instant is in nanoseconds.
pub mod Files
pub mod Evict
pub mod Replay
pub mod Memory
pub mod Stored
pub mod Listed
use ome_kafka_bridge.Common.{
  ℕ, zero, suc, ◌+◌, ◌*◌, ◌^◌, Bool, true, false, if◌then◌else◌, ◌&&◌, not, Option, none, some,
  List, [], ◌∷◌, ◌++◌, Bytes, codes, length, is_empty, ℤ, pos, negsuc, int64, uint64, minus, sub,
  less, sort, str_eq, decimal,
}
use ome_kafka_bridge.Config.{CacheConfig, Duration}
use ome_kafka_bridge.Broker.Outcome.{Outcome, done, close_channel}
use ome_kafka_bridge.Parser.Model.{Time, MetricSample, LogEntry}
use ome_kafka_bridge.Forwarder.Client.{start_ticker}
use ome_kafka_bridge.Cache.Files.{FileSystem}

-- The kind is a text, of which two are known.
pub record CachedEntry : Type 0 where
  pub id : Bytes
  pub kind : Bytes
  pub created_at : Time
  pub metrics : List MetricSample
  pub logs : List LogEntry

-- The callbacks are set or not; what they are called with is a result of the replay.
pub record Cache : Type 0 where
  pub cfg : CacheConfig
  pub on_retry_metrics : Bool
  pub on_retry_logs : Bool

pub record Stats : Type 0 where
  pub entry_count : ℕ
  pub total_bytes : ℕ
  pub max_bytes : ℤ

pub data CacheError : Type 0 where
  creating_dir marshal_failed write_failed : CacheError

pub data Retry : Type 0 where
  retry_metrics : List MetricSample → Retry
  retry_logs : List LogEntry → Retry

pub data RetryEvent : Type 0 where
  tick : Time → ℕ → RetryEvent
  stop : RetryEvent

abbrev pub no_stats : Stats
no_stats = record { entry_count = 0; total_bytes = 0; max_bytes = pos 0 }

-- `c.cfg.MaxSizeMB * 1024 * 1024` of an int64
abbrev pub max_bytes_of : CacheConfig → ℤ
max_bytes_of cfg = int64 (uint64 cfg.max_size_mb * 2 ^ 20)

-- The entries of the Store methods: the clock is read for the name and again for the entry.
abbrev pub metrics_entry : Time → Time → List MetricSample → CachedEntry
metrics_entry now created samples = record {
  id = codes "metrics_" ++ decimal now;
  kind = codes "metrics";
  created_at = created;
  metrics = samples;
  logs = [];
}

abbrev pub logs_entry : Time → Time → List LogEntry → CachedEntry
logs_entry now created entries = record {
  id = codes "logs_" ++ decimal now;
  kind = codes "logs";
  created_at = created;
  metrics = [];
  logs = entries;
}

abbrev pub size_or_zero : Option ℕ → ℕ
size_or_zero none = 0
size_or_zero (some size) = size

module _ (fs : FileSystem) (marshal : CachedEntry → Option Bytes)
    (unmarshal : Bytes → Option CachedEntry) where
  -- A disabled cache is nil.
  unfoldable pub new :
      fs.Disk → CacheConfig → Outcome (Option CacheError × (fs.Disk × Option Cache))
  unfolding start_ticker
  new d c = if not c.enabled then done (none, (d, none)) else elim (fs.mkdir_all d c.dir) [
    | none ↦ done (some creating_dir, (d, none))
    | some d' ↦
        start_ticker c.retry_interval
          (none, (d', some (record { cfg = c; on_retry_metrics = false; on_retry_logs = false })))
  ]

  unfoldable pub list_entries : Cache → fs.Disk → Option (List Bytes)
  list_entries c d = elim (fs.glob d (fs.join c.cfg.dir (codes "*.json"))) [
    | none ↦ none
    | some files ↦ some (sort files)
  ]

  -- The entries where an error is passed over.
  unfoldable pub entries_of : Cache → fs.Disk → List Bytes
  entries_of c d = elim (list_entries c d) [ none ↦ [] | some entries ↦ entries ]

  -- The size of a file, and nothing if there is no information on it.
  abbrev pub size_of : fs.Disk → Bytes → ℕ
  size_of d path = size_or_zero (fs.stat d path)

  unfoldable pub total_size : fs.Disk → List Bytes → ℕ
  total_size d [] = 0
  total_size d (e ∷ entries) = size_of d e + total_size d entries

  -- `for totalBytes > maxBytes && len(entries) > 0`; the result is the disk.
  unfoldable pub evict_loop : ℤ → ℤ → fs.Disk → List Bytes → fs.Disk
  evict_loop max total d [] = d
  evict_loop max total d (oldest ∷ entries) =
      let rest = evict_loop max (minus total (size_of d oldest)) (fs.remove d oldest) entries in
      if less max total then rest else d

  unfoldable pub evict_if_needed : Cache → fs.Disk → fs.Disk
  evict_if_needed c d =
      let entries = entries_of c d in
      evict_loop (max_bytes_of c.cfg) (pos (total_size d entries)) d entries

  abbrev write_error : Bool → Option CacheError
  write_error true = some write_failed
  write_error false = none

  unfoldable pub write : Cache → CachedEntry → fs.Disk → fs.Disk × Option CacheError
  write c entry d =
      let d' = evict_if_needed c d in
      elim (marshal entry) [
        | none ↦ (d', some marshal_failed)
        | some data_ ↦
            (let (d'', failed) =
                fs.write_file d' (fs.join c.cfg.dir (entry.id ++ codes ".json")) data_ in
              (d'', write_error failed))
      ]

  -- A nil cache stores nothing.
  unfoldable pub store_metrics :
      Option Cache → Time → Time → List MetricSample → fs.Disk → fs.Disk × Option CacheError
  store_metrics none now created samples d = (d, none)
  store_metrics (some c) now created samples d = write c (metrics_entry now created samples) d

  unfoldable pub store_logs :
      Option Cache → Time → Time → List LogEntry → fs.Disk → fs.Disk × Option CacheError
  store_logs none now created entries d = (d, none)
  store_logs (some c) now created entries d = write c (logs_entry now created entries) d

  -- The switch on the kind of an entry: what is retried, and then its file is removed.
  unfoldable pub retry_of : Cache → CachedEntry → Option Retry
  retry_of c entry =
      if str_eq entry.kind (codes "metrics")
      then (if c.on_retry_metrics && not (is_empty entry.metrics)
          then some (retry_metrics entry.metrics)
          else none)
      else if str_eq entry.kind (codes "logs")
      then (if c.on_retry_logs && not (is_empty entry.logs)
          then some (retry_logs entry.logs)
          else none)
      else none

  unfoldable pub replay_entry :
      Cache → Time → CachedEntry → Bytes → fs.Disk → fs.Disk × Option Retry
  replay_entry c cutoff entry path d =
      if less entry.created_at cutoff
      then (fs.remove d path, none)
      else elim (retry_of c entry) [ none ↦ (d, none) | some r ↦ (fs.remove d path, some r) ]

  -- A round of the loop over the entries.
  unfoldable pub replay_path : Cache → Time → Bytes → fs.Disk → fs.Disk × Option Retry
  replay_path c cutoff path d = elim (fs.read_file d path) [
    | none ↦ (d, none)
    | some data_ ↦ elim (unmarshal data_) [
      | none ↦ (fs.remove d path, none)
      | some entry ↦ replay_entry c cutoff entry path d
    ]
  ]

  abbrev pub called : Option Retry → List Retry → List Retry
  called none retries = retries
  called (some r) retries = r ∷ retries

  -- The context's deadline leaves time for `rounds` of the entries.
  unfoldable pub replay_paths : ℕ → Cache → Time → List Bytes → fs.Disk → fs.Disk × List Retry
  replay_paths zero c cutoff paths d = (d, [])
  replay_paths (suc rounds) c cutoff [] d = (d, [])
  replay_paths (suc rounds) c cutoff (path ∷ paths) d =
      let (d', r) = replay_path c cutoff path d in
      let (d'', retries) = replay_paths rounds c cutoff paths d' in (d'', called r retries)

  unfoldable pub replay_all : ℕ → Cache → Time → fs.Disk → fs.Disk × List Retry
  replay_all rounds c now d = replay_paths rounds c (sub now c.cfg.max_age) (entries_of c d) d

  unfoldable pub stats : Option Cache → fs.Disk → Stats
  stats none d = no_stats
  stats (some c) d = record {
    entry_count = length (entries_of c d);
    total_bytes = total_size d (entries_of c d);
    max_bytes = max_bytes_of c.cfg;
  }

  -- What the retry loop waits for: its ticker, with the clock and the entries that the deadline leaves
  -- time for, or the end.
  unfoldable pub retry_loop : Cache → fs.Disk → List RetryEvent → fs.Disk × List Retry
  retry_loop c d [] = (d, [])
  retry_loop c d (tick now rounds ∷ events) =
      let (d', retries) = replay_all rounds c now d in
      let (d'', later) = retry_loop c d' events in (d'', retries ++ later)
  retry_loop c d (stop ∷ events) = (d, [])

-- A nil cache has no channel to close.
unfoldable pub close : Option Cache → Bool → Outcome Bool
unfolding close_channel
close none closed = done closed
close (some c) closed = close_channel closed
