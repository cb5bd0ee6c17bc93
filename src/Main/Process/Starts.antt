-- ===== src/Main/Process/Starts.antt =====
-- The process as the start leaves it, and what follows for everything that it becomes.
use ome_kafka_bridge.Common.{
  ℕ, ◌<◌, ◌≡◌, ◌≢◌, sym, subst, refl, ap, arith, Bool, Option, none, some, List, [], Bytes, pos,
  Result, ok, err,
}
use ome_kafka_bridge.Labels.{Labels}
use ome_kafka_bridge.Config.{
  Config, ConfigError, RemoteWriteConfig, LokiConfig, RelabelConfig, load,
}
use ome_kafka_bridge.Config.Defaults.{IsReady, load-IsReady}
use ome_kafka_bridge.Broker.Outcome.{Outcome, done, panic, stuck, bind}
use ome_kafka_bridge.Broker.State
use ome_kafka_bridge.Broker.State.{add_topics}
use ome_kafka_bridge.Broker.Metadata.Topics.{IsSetOf-add_topics}
use ome_kafka_bridge.Relabel.{Regexp}
use ome_kafka_bridge.Forwarder.Client.{NewError, Certificates, start_ticker}
use ome_kafka_bridge.Forwarder.Metrics.{MetricsForwarder, new_metrics_forwarder}
use ome_kafka_bridge.Forwarder.Logs.{LogForwarder, new_log_forwarder}
use ome_kafka_bridge.Cache
use ome_kafka_bridge.Cache.{Cache, CachedEntry, CacheError}
use ome_kafka_bridge.Cache.Files.{FileSystem}
use ome_kafka_bridge.Main.{Sent}
use ome_kafka_bridge.Main.Start.{
  Running, StartError, start_broker, with_log_forwarder, with_metrics_forwarder, with_cache,
  start_cache, start_loaded, start,
}
use ome_kafka_bridge.Main.Process.{Process, initial, advance, World, Trace}
use ome_kafka_bridge.Main.Process.Invariant.{IsSound}
use ome_kafka_bridge.Main.Process.Advance.{IsFine, advance-IsFine}
use ome_kafka_bridge.Main.Process.Sound.{Trace-IsSound}

module _ (compile : Bytes → Option Regexp) (certs : Certificates) where
  abbrev IsNewMetrics : RemoteWriteConfig → Outcome (Result NewError MetricsForwarder) → Type 0
  IsNewMetrics cfg (done (ok f)) = (f.cfg ≡ cfg) × (f.pending ≡ [])
  IsNewMetrics cfg (done (err e)) = Unit {0}
  IsNewMetrics cfg panic = Unit {0}
  IsNewMetrics cfg stuck = Unit {0}

  new_metrics_forwarder-IsNew :
      (cfg : RemoteWriteConfig) (extra : Labels) (rules : List RelabelConfig)
      → IsNewMetrics cfg (new_metrics_forwarder compile certs cfg extra rules)
  unfolding new_metrics_forwarder start_ticker
  new_metrics_forwarder-IsNew cfg extra rules = ground arith

  abbrev IsNewLogs : LokiConfig → Outcome (Result NewError LogForwarder) → Type 0
  IsNewLogs cfg (done (ok f)) = (f.cfg ≡ cfg) × (f.pending ≡ [])
  IsNewLogs cfg (done (err e)) = Unit {0}
  IsNewLogs cfg panic = Unit {0}
  IsNewLogs cfg stuck = Unit {0}

  new_log_forwarder-IsNew :
      (cfg : LokiConfig) (extra : Labels) (rules : List RelabelConfig)
      → IsNewLogs cfg (new_log_forwarder compile certs cfg extra rules)
  unfolding new_log_forwarder start_ticker
  new_log_forwarder-IsNew cfg extra rules = ground arith

-- A start that came to an end with this configuration, if it did.
record IsStarted (fs : FileSystem) (c : Config) (r : Running fs) : Type 0 where
  conf : r.conf ≡ c
  broker : r.broker ≡ State.new c.kafka
  metrics_cfg : r.pipeline.metrics_fwd.cfg ≡ c.remote_write
  metrics_pending : r.pipeline.metrics_fwd.pending ≡ []
  logs_cfg : r.pipeline.log_fwd.cfg ≡ c.loki
  logs_pending : r.pipeline.log_fwd.pending ≡ []

module _ (w : World) (compile : Bytes → Option Regexp) (certs : Certificates) (trim : Bytes → Bytes)
    (listen : Bytes → Bool) where
  abbrev Starts : Config → Outcome (Result StartError (Running w.fs)) → Type 0
  Starts c (done (ok r)) = IsStarted w.fs c r
  Starts c (done (err e)) = Unit {0}
  Starts c panic = Unit {0}
  Starts c stuck = Unit {0}

  with_log_forwarder-Starts :
      (c : Config) (d : w.fs.Disk) (cache : Option Cache) (f : MetricsForwarder)
      (made : Outcome (Result NewError LogForwarder))
      → (f.cfg ≡ c.remote_write) × (f.pending ≡ [])
      → IsNewLogs compile certs c.loki made
      → Starts c (
          bind made
            (with_log_forwarder w.fs w.marshal w.unmarshal compile certs trim listen c d cache f))
  unfolding with_log_forwarder start_broker
  with_log_forwarder-Starts c d cache f (done (ok g)) h k = ground arith
  with_log_forwarder-Starts c d cache f (done (err e)) h k = tt
  with_log_forwarder-Starts c d cache f panic h k = tt
  with_log_forwarder-Starts c d cache f stuck h k = tt

  with_metrics_forwarder-Starts :
      (c : Config) (d : w.fs.Disk) (cache : Option Cache)
      (made : Outcome (Result NewError MetricsForwarder))
      → IsNewMetrics compile certs c.remote_write made
      → Starts c (
          bind made
            (with_metrics_forwarder w.fs w.marshal w.unmarshal compile certs trim listen c d cache))
  unfolding with_metrics_forwarder
  with_metrics_forwarder-Starts c d cache (done (ok f)) h =
      with_log_forwarder-Starts c d cache f _ h
        (new_log_forwarder-IsNew compile certs c.loki c.extra_labels c.log_relabel_cfgs)
  with_metrics_forwarder-Starts c d cache (done (err e)) h = tt
  with_metrics_forwarder-Starts c d cache panic h = tt
  with_metrics_forwarder-Starts c d cache stuck h = tt

  with_cache-Starts :
      (c : Config) (opened : Outcome (Option CacheError × (w.fs.Disk × Option Cache)))
      → Starts c (bind opened (with_cache w.fs w.marshal w.unmarshal compile certs trim listen c))
  unfolding with_cache
  with_cache-Starts c (done (none, (d, cache))) =
      with_metrics_forwarder-Starts c d cache _
        (new_metrics_forwarder-IsNew compile certs c.remote_write c.extra_labels c.relabel_configs)
  with_cache-Starts c (done (some e, opened)) = tt
  with_cache-Starts c panic = tt
  with_cache-Starts c stuck = tt

  start_loaded-IsStarted :
      (conf : Option Config) (failed : Option ConfigError) (d : w.fs.Disk) (r : Running w.fs)
      → start_loaded w.fs w.marshal w.unmarshal compile certs trim listen conf failed d
        ≡ done (ok r)
      → (conf ≡ some r.conf) × (failed ≡ none) × IsStarted w.fs r.conf r
  unfolding start_loaded start_cache
  start_loaded-IsStarted conf (some e) d r h = cc
  start_loaded-IsStarted none none d r h = cc
  start_loaded-IsStarted (some c) none d r h =
      let started : IsStarted w.fs c r =
        rw h at (with_cache-Starts c (Cache.new w.fs w.marshal w.unmarshal d c.cache)) in
      (
        ap some (sym started.conf),
        refl,
        subst (λ (x : Config). IsStarted w.fs x r) (sym started.conf) started,
      )

  start-IsStarted :
      (read_file : Bytes → Option Bytes) (unmarshal_yaml : Bytes → Option Config) (path : Bytes)
      (d : w.fs.Disk) (r : Running w.fs)
      → start w.fs w.marshal w.unmarshal compile certs trim listen read_file unmarshal_yaml path d
        ≡ done (ok r)
      → IsReady r.conf × IsStarted w.fs r.conf r
  unfolding start
  start-IsStarted read_file unmarshal_yaml path d r h =
      let (conf, failed, started) = start_loaded-IsStarted _ _ d r h in
      let loaded : load read_file unmarshal_yaml path ≡ (some r.conf, none) =
        (λ i. (conf i, failed i)) in
      ((load-IsReady read_file unmarshal_yaml path r.conf loaded).0, started)

  initial-IsSound :
      (m n : ℕ) (c : Config) (r : Running w.fs)
      → IsStarted w.fs c r
      → 0 < m
      → 0 < n
      → c.remote_write.batch_size ≡ pos m
      → c.loki.batch_size ≡ pos n
      → IsSound w m n (initial w.fs r)
  unfolding initial State.new
  initial-IsSound m n c r h positive_m positive_n hm hn = record {
    room = rw h.broker (omega arith);
    topics = rw h.broker (IsSetOf-add_topics c.kafka.topics [] tt);
    bounded = record {
      metrics_size = rw h.metrics_cfg hm;
      log_size = rw h.logs_cfg hn;
      metrics_pending = rw h.metrics_pending (ground arith);
      log_pending = rw h.logs_pending (ground arith);
    };
    in_order = (refl, rw h.broker refl, refl, refl, refl);
    consumer = refl;
    metrics_loop = refl;
    logs_loop = refl;
    retry_loop = ground arith;
    listener = refl;
  }

  not_panic : (m n : ℕ) (o : Outcome (Process w.fs)) → IsFine w m n o → o ≢ panic
  not_panic m n o fine e = rw e at fine

  pub start-IsSound :
      (read_file : Bytes → Option Bytes) (unmarshal_yaml : Bytes → Option Config) (path : Bytes)
      (d : w.fs.Disk) (r : Running w.fs) (m n : ℕ) (t : Process w.fs) (out : Sent)
      → start w.fs w.marshal w.unmarshal compile certs trim listen read_file unmarshal_yaml path d
        ≡ done (ok r)
      → r.conf.remote_write.batch_size ≡ pos m
      → r.conf.loki.batch_size ≡ pos n
      → Trace w (initial w.fs r) out t
      → IsSound w m n t × (advance w.fs t.stage t ≢ panic)
  start-IsSound read_file unmarshal_yaml path d r m n t out started hm hn trace =
      let (ready, is_started) = start-IsStarted read_file unmarshal_yaml path d r started in
      let metrics = ready.metrics_batch in
      let logs = ready.logs_batch in
      let positive_m : 0 < m = ground arith in
      let positive_n : 0 < n = ground arith in
      let sound =
        Trace-IsSound w m n positive_m positive_n trace
          (initial-IsSound m n r.conf r is_started positive_m positive_n hm hn) in
      (sound, not_panic m n (advance w.fs t.stage t) (advance-IsFine w m n t.stage t refl sound))
