-- ===== src/Main/Panics.antt =====
-- When the program panics while it starts.
use ome_kafka_bridge.Common.{
  ◌≡◌, ◌≢◌, inl, inr, refl, arith, Bool, true, ◌||◌, Option, none, some, Bytes, Result, ok, err,
}
use ome_kafka_bridge.Config.{Config, ConfigError, load}
use ome_kafka_bridge.Config.Defaults.{IsReady, load-IsReady, load-some}
use ome_kafka_bridge.Broker.Outcome.{panic, bind-eq-panic}
use ome_kafka_bridge.Relabel.{Regexp}
use ome_kafka_bridge.Forwarder.Client.{NewError, Certificates, start_ticker}
use ome_kafka_bridge.Forwarder.Metrics.{MetricsForwarder, new_metrics_forwarder}
use ome_kafka_bridge.Forwarder.Logs.{LogForwarder, new_log_forwarder}
use ome_kafka_bridge.Forwarder.Ticker.{
  is_negative, new_metrics_forwarder-panic, new_log_forwarder-panic,
}
use ome_kafka_bridge.Cache
use ome_kafka_bridge.Cache.{Cache, CachedEntry, CacheError}
use ome_kafka_bridge.Cache.Files.{FileSystem}
use ome_kafka_bridge.Main.Start.{
  with_log_forwarder, with_metrics_forwarder, with_cache, start_cache, start_loaded, start,
}

-- The intervals that a ticker is made of.
abbrev pub has_negative_interval : Config → Bool
has_negative_interval c =
    is_negative c.cache.retry_interval
    || is_negative c.remote_write.flush_interval
    || is_negative c.loki.flush_interval

module _ (fs : FileSystem) (marshal : CachedEntry → Option Bytes)
    (unmarshal : Bytes → Option CachedEntry) (compile : Bytes → Option Regexp)
    (certs : Certificates) (trim : Bytes → Bytes) (listen : Bytes → Bool) where
  with_log_forwarder-panic :
      (c : Config) (d : fs.Disk) (cache : Option Cache) (f : MetricsForwarder)
      (made : Result NewError LogForwarder)
      → with_log_forwarder fs marshal unmarshal compile certs trim listen c d cache f made ≢ panic
  unfolding with_log_forwarder
  with_log_forwarder-panic c d cache f (err e) h = cc
  with_log_forwarder-panic c d cache f (ok g) h = cc

  with_metrics_forwarder-panic :
      (c : Config) (d : fs.Disk) (cache : Option Cache) (made : Result NewError MetricsForwarder)
      → IsReady c
      → with_metrics_forwarder fs marshal unmarshal compile certs trim listen c d cache made ≡ panic
      → is_negative c.loki.flush_interval ≡ true
  unfolding with_metrics_forwarder
  with_metrics_forwarder-panic c d cache (err e) ready h = cc
  with_metrics_forwarder-panic c d cache (ok f) ready h =
      elim (bind-eq-panic (new_log_forwarder compile certs c.loki c.extra_labels c.log_relabel_cfgs)
        (with_log_forwarder fs marshal unmarshal compile certs trim listen c d cache f) h) [
          | inl panicked ↦
              new_log_forwarder-panic compile certs c.extra_labels c.log_relabel_cfgs c.loki
                ready.logs_interval panicked
          | inr (made, e, later) ↦ absurd (with_log_forwarder-panic c d cache f made later)
        ]

  with_cache-panic :
      (c : Config) (opened : Option CacheError × (fs.Disk × Option Cache))
      → IsReady c
      → with_cache fs marshal unmarshal compile certs trim listen c opened ≡ panic
      → (is_negative c.remote_write.flush_interval || is_negative c.loki.flush_interval) ≡ true
  unfolding with_cache
  with_cache-panic c (some e, opened) ready h = cc
  with_cache-panic c (none, (d, cache)) ready h =
      elim (bind-eq-panic
        (new_metrics_forwarder compile certs c.remote_write c.extra_labels c.relabel_configs)
        (with_metrics_forwarder fs marshal unmarshal compile certs trim listen c d cache) h) [
          | inl panicked ↦
              (let negative =
                  new_metrics_forwarder-panic compile certs c.extra_labels c.relabel_configs
                    c.remote_write ready.metrics_interval panicked in
                rw negative refl)
          | inr (made, e, later) ↦
              (let negative = with_metrics_forwarder-panic c d cache made ready later in
                ground arith)
        ]

  new-panic :
      (c : Config) (d : fs.Disk)
      → IsReady c
      → Cache.new fs marshal unmarshal d c.cache ≡ panic
      → is_negative c.cache.retry_interval ≡ true
  unfolding Cache.new start_ticker
  new-panic c d ready h = let nonzero = ready.retry_interval in ground arith

  start_cache-panic :
      (c : Config) (d : fs.Disk)
      → IsReady c
      → start_cache fs marshal unmarshal compile certs trim listen c d ≡ panic
      → has_negative_interval c ≡ true
  unfolding start_cache
  start_cache-panic c d ready h =
      elim (bind-eq-panic (Cache.new fs marshal unmarshal d c.cache)
        (with_cache fs marshal unmarshal compile certs trim listen c) h) [
          | inl panicked ↦ (let negative = new-panic c d ready panicked in rw negative refl)
          | inr (opened, e, later) ↦
              (let negative = with_cache-panic c opened ready later in ground arith)
        ]

  start_loaded-panic :
      (conf : Option Config) (failed : Option ConfigError) (d : fs.Disk)
      → ◌≢◌ {A = Option Config × Option ConfigError} (conf, failed) (none, none)
      → start_loaded fs marshal unmarshal compile certs trim listen conf failed d ≡ panic
      → (c : Config) × (conf ≡ some c)
        × (failed ≡ none)
        × (start_cache fs marshal unmarshal compile certs trim listen c d ≡ panic)
  unfolding start_loaded
  start_loaded-panic conf (some e) d loaded h = cc
  start_loaded-panic (some c) none d loaded h = (c, refl, refl, h)
  start_loaded-panic none none d loaded h = absurd (loaded refl)

  -- Whatever the file system, the decoders, the certificates and the network give: if the program
  -- panics while it starts, the configuration loads without an error, and its retry interval or one
  -- of its flush intervals is negative.
  pub start-panic :
      (read_file : Bytes → Option Bytes) (unmarshal_yaml : Bytes → Option Config) (path : Bytes)
      (d : fs.Disk)
      → start fs marshal unmarshal compile certs trim listen read_file unmarshal_yaml path d ≡ panic
      → (c : Config) × (load read_file unmarshal_yaml path ≡ (some c, none))
        × (has_negative_interval c ≡ true)
  unfolding start
  start-panic read_file unmarshal_yaml path d h =
      let (c, conf, failed, panicked) =
        start_loaded-panic _ _ d (load-some read_file unmarshal_yaml path) h in
      let loaded : load read_file unmarshal_yaml path ≡ (some c, none) =
        (λ i. (conf i, failed i)) in
      (
        c,
        loaded,
        start_cache-panic c d (load-IsReady read_file unmarshal_yaml path c loaded).0 panicked,
      )
