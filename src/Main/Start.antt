-- ===== src/Main/Start.antt =====
-- main: what is started, in its order, from the configuration file on. A fatal error ends the process
-- with a message that says which part failed.
use ome_kafka_bridge.Common.{
  Bool, true, if◌then◌else◌, Option, none, some, List, [], map, Bytes, Result, ok, err,
}
use ome_kafka_bridge.Config.{Config, ConfigError, load}
use ome_kafka_bridge.Broker.Outcome.{Outcome, done, panic, bind}
use ome_kafka_bridge.Broker.Listen
use ome_kafka_bridge.Broker.State
use ome_kafka_bridge.Broker.State.{Broker}
use ome_kafka_bridge.Relabel.{Regexp}
use ome_kafka_bridge.Forwarder.Client.{NewError, Certificates}
use ome_kafka_bridge.Forwarder.Metrics.{MetricsForwarder, new_metrics_forwarder}
use ome_kafka_bridge.Forwarder.Logs.{LogForwarder, new_log_forwarder}
use ome_kafka_bridge.Cache
use ome_kafka_bridge.Cache.{Cache, CachedEntry, CacheError}
use ome_kafka_bridge.Cache.Files.{FileSystem}
use ome_kafka_bridge.Main.{Pipeline}

pub data StartError : Type 0 where
  load_config : ConfigError → StartError
  init_cache : CacheError → StartError
  init_metrics_forwarder init_log_forwarder : NewError → StartError
  start_kafka_broker : StartError

-- strings.TrimSpace is a parameter.
unfoldable pub build_topic_set : (Bytes → Bytes) → List Bytes → List Bytes
build_topic_set trim topics = map trim topics

pub record Running (fs : FileSystem) : Type 0 where
  pub conf : Config
  pub disk : fs.Disk
  pub cache : Option Cache
  pub pipeline : Pipeline
  pub broker : Broker

-- The callbacks are wired unless the cache is nil.
abbrev wire : Option Cache → Option Cache
wire none = none
wire (some c) = some (record c { on_retry_metrics = true; on_retry_logs = true })

-- The decoder of JSON, the file system, the regular expressions, TLS and net.Listen.
module _ (fs : FileSystem) (marshal : CachedEntry → Option Bytes)
    (unmarshal : Bytes → Option CachedEntry) (compile : Bytes → Option Regexp)
    (certs : Certificates) (trim : Bytes → Bytes) (listen : Bytes → Bool) where
  abbrev pipeline_of : Config → MetricsForwarder → LogForwarder → Pipeline
  pipeline_of conf metrics_fwd log_fwd = record {
    metrics_topics = build_topic_set trim conf.topic_routing.metrics_topics;
    log_topics = build_topic_set trim conf.topic_routing.log_topics;
    metrics_fwd = metrics_fwd;
    log_fwd = log_fwd;
    received = [];
    dropped = [];
  }

  unfoldable pub start_broker :
      Config → fs.Disk → Option Cache → Pipeline → Result StartError (Running fs)
  start_broker conf d cache pipeline =
      if Listen.start listen (State.new conf.kafka)
      then ok (record {
        conf = conf;
        disk = d;
        cache = wire cache;
        pipeline = pipeline;
        broker = State.new conf.kafka;
      })
      else err start_kafka_broker

  unfoldable pub with_log_forwarder :
      Config
      → fs.Disk
      → Option Cache
      → MetricsForwarder
      → Result NewError LogForwarder
      → Outcome (Result StartError (Running fs))
  with_log_forwarder conf d cache metrics_fwd (err e) = done (err (init_log_forwarder e))
  with_log_forwarder conf d cache metrics_fwd (ok log_fwd) =
      done (start_broker conf d cache (pipeline_of conf metrics_fwd log_fwd))

  unfoldable pub with_metrics_forwarder :
      Config
      → fs.Disk
      → Option Cache
      → Result NewError MetricsForwarder
      → Outcome (Result StartError (Running fs))
  with_metrics_forwarder conf d cache (err e) = done (err (init_metrics_forwarder e))
  with_metrics_forwarder conf d cache (ok metrics_fwd) =
      bind (new_log_forwarder compile certs conf.loki conf.extra_labels conf.log_relabel_cfgs)
        (with_log_forwarder conf d cache metrics_fwd)

  unfoldable pub with_cache :
      Config
      → Option CacheError × (fs.Disk × Option Cache)
      → Outcome (Result StartError (Running fs))
  with_cache conf (some e, opened) = done (err (init_cache e))
  with_cache conf (none, (d, cache)) =
      bind
        (new_metrics_forwarder compile certs conf.remote_write conf.extra_labels
          conf.relabel_configs)
        (with_metrics_forwarder conf d cache)

  unfoldable pub start_cache : Config → fs.Disk → Outcome (Result StartError (Running fs))
  start_cache conf d = bind (Cache.new fs marshal unmarshal d conf.cache) (with_cache conf)

  unfoldable pub start_loaded :
      Option Config → Option ConfigError → fs.Disk → Outcome (Result StartError (Running fs))
  start_loaded conf (some e) d = done (err (load_config e))
  start_loaded (some conf) none d = start_cache conf d
  start_loaded none none d = panic

  -- The file and the decoder of YAML. Without an error there is a configuration.
  unfoldable pub start :
      (Bytes → Option Bytes)
      → (Bytes → Option Config)
      → Bytes
      → fs.Disk
      → Outcome (Result StartError (Running fs))
  start read_file unmarshal_yaml path d =
      let (conf, failed) = load read_file unmarshal_yaml path in start_loaded conf failed d
