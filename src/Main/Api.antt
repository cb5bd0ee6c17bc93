-- ===== src/Main/Api.antt =====
-- The HTTP API and the logger of main.go. The handler of the metrics library, the mux's answer for a
-- path that it does not know, the JSON encoder and the parser of levels are parameters.
use ome_kafka_bridge.Common.{
  ℕ, Bool, if◌then◌else◌, Option, none, some, List, [], ◌∷◌, Bytes, codes, str_eq,
}
use ome_kafka_bridge.Config.{LogConfig}
use ome_kafka_bridge.Cache.{Cache, CachedEntry, Stats, stats}
use ome_kafka_bridge.Cache.Files.{FileSystem}
use ome_kafka_bridge.Main.{Pipeline}

pub record Reply : Type 0 where
  pub status : ℕ
  pub headers : List (Bytes × Bytes)
  pub body : Bytes

-- The gauge cacheEntries after a request, and the answer.
abbrev Answered : Type 0
Answered = ℕ × Reply

unfoldable pub healthz : Reply
healthz = record { status = 200; headers = []; body = codes "ok" }

module _ (fs : FileSystem) (marshal : CachedEntry → Option Bytes)
    (unmarshal : Bytes → Option CachedEntry) (encode : Stats → Bytes) where
  -- The gauge is set here, and nowhere else.
  unfoldable pub cache_stats : Option Cache → fs.Disk → Answered
  cache_stats cache d =
      let s = stats fs marshal unmarshal cache d in
      (
        s.entry_count,
        record {
          status = 200;
          headers = (codes "Content-Type", codes "application/json") ∷ [];
          body = encode s;
        },
      )

  -- The mux, with the counters and the gauge that the metrics library shows.
  module _ (gather : Pipeline → ℕ → Reply) (not_found : Reply) where
    unfoldable pub handle_api : Bytes → Option Cache → fs.Disk → Pipeline → ℕ → Answered
    unfolding cache_stats healthz
    handle_api path cache d pipeline gauge =
        if str_eq path (codes "/metrics")
        then (gauge, gather pipeline gauge)
        else if str_eq path (codes "/healthz")
        then (gauge, healthz)
        else if str_eq path (codes "/cache/stats")
        then cache_stats cache d
        else (gauge, not_found)

-- The format is the default one or JSON, and the level is Info if it does not parse.
pub record Logger (Level : Type 0) : Type 0 where
  pub json : Bool
  pub level : Level

unfoldable pub new_logger :
    {Level : Type 0} → (Bytes → Option Level) → Level → LogConfig → Logger Level
new_logger parse_level info conf = record {
  json = str_eq conf.format (codes "json");
  level = elim (parse_level conf.level) [ none ↦ info | some level ↦ level ];
}
