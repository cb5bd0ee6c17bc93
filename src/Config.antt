-- ===== src/Config.antt =====
-- internal/config/config.go: the configuration, its defaults and its validation. The file system
-- and the YAML decoder are parameters.
pub mod Defaults
use ome_kafka_bridge.Common.{
  ℕ, zero, suc, ◌*◌, ◌+◌, ◌^◌, Bool, true, false, if◌then◌else◌, Option, none, some, List, [], ◌∷◌,
  ◌++◌, Bytes, codes,
}
use ome_kafka_bridge.Common.{ℤ, pos, negsuc}

-- A time.Duration is a number of nanoseconds.
abbrev pub Duration : Type 0
Duration = ℤ

-- Duration.UnmarshalYAML: the duration afterwards, and whether there was an error.
-- time.ParseDuration is a parameter.
unfoldable pub unmarshal_duration : (Bytes → Option Duration) → Duration → Bytes → Duration × Bool
unmarshal_duration parse_duration d value = elim (parse_duration value) [
  | none ↦ (d, true)
  | some dur ↦ (dur, false)
]

abbrev pub second : ℕ
second = 1000000000

pub record KafkaConfig : Type 0 where
  pub listen_addr : Bytes
  pub ome_identifier : Bytes
  pub advertised_host : Bytes
  pub advertised_port : ℤ
  pub topics : List Bytes
  pub auto_create_topics : Bool
  pub num_partitions : ℤ
  pub replication_factor : ℤ

pub record TlsConfig : Type 0 where
  pub insecure_skip_verify : Bool
  pub ca_file : Bytes
  pub cert_file : Bytes
  pub key_file : Bytes

pub record RemoteWriteConfig : Type 0 where
  pub url : Bytes
  pub timeout : Duration
  pub username : Bytes
  pub password : Bytes
  pub tls : TlsConfig
  pub batch_size : ℤ
  pub flush_interval : Duration

pub record LokiConfig : Type 0 where
  pub url : Bytes
  pub timeout : Duration
  pub tls : TlsConfig
  pub batch_size : ℤ
  pub flush_interval : Duration

pub record CacheConfig : Type 0 where
  pub enabled : Bool
  pub dir : Bytes
  pub max_size_mb : ℤ
  pub retry_interval : Duration
  pub max_age : Duration

pub record RelabelConfig : Type 0 where
  pub source_labels : List Bytes
  pub separator : Bytes
  pub target_label : Bytes
  pub regex : Bytes
  pub replacement : Bytes
  pub action : Bytes

pub record TopicRoutingConfig : Type 0 where
  pub metrics_topics : List Bytes
  pub log_topics : List Bytes

pub record ApiConfig : Type 0 where
  pub listen_addr : Bytes

pub record LogConfig : Type 0 where
  pub level : Bytes
  pub format : Bytes

pub record Config : Type 0 where
  pub kafka : KafkaConfig
  pub remote_write : RemoteWriteConfig
  pub loki : LokiConfig
  pub cache : CacheConfig
  pub extra_labels : List (Bytes × Bytes)
  pub relabel_configs : List RelabelConfig
  pub log_relabel_cfgs : List RelabelConfig
  pub topic_routing : TopicRoutingConfig
  pub api : ApiConfig
  pub log : LogConfig

-- `if x == zero { x = d }` at a text, a number and a list
unfoldable pub text_or : Bytes → Bytes → Bytes
text_or [] d = d
text_or (c ∷ s) d = c ∷ s

unfoldable pub int_or : ℤ → ℤ → ℤ
int_or (pos zero) d = d
int_or (pos (suc n)) d = pos (suc n)
int_or (negsuc n) d = negsuc n

unfoldable pub list_or {ℓ} : {A : Type ℓ} → List A → List A → List A
list_or [] d = d
list_or (x ∷ xs) d = x ∷ xs

kafka_defaults : KafkaConfig → KafkaConfig
kafka_defaults c = record c {
  listen_addr = text_or c.listen_addr (codes "0.0.0.0:9092");
  ome_identifier = text_or c.ome_identifier (codes "ome");
  num_partitions = int_or c.num_partitions (pos 1);
  replication_factor = int_or c.replication_factor (pos 1);
}

remote_write_defaults : RemoteWriteConfig → RemoteWriteConfig
remote_write_defaults c = record c {
  batch_size = int_or c.batch_size (pos 500);
  flush_interval = int_or c.flush_interval (pos (10 * second));
}

loki_defaults : LokiConfig → LokiConfig
loki_defaults c = record c {
  batch_size = int_or c.batch_size (pos 100);
  flush_interval = int_or c.flush_interval (pos (5 * second));
}

cache_defaults : CacheConfig → CacheConfig
cache_defaults c = record c {
  dir = text_or c.dir (codes "/var/lib/ome-kafka-bridge/cache");
  max_size_mb = int_or c.max_size_mb (pos 512);
  retry_interval = int_or c.retry_interval (pos (30 * second));
  max_age = int_or c.max_age (pos (24 * 3600 * second));
}

log_defaults : LogConfig → LogConfig
log_defaults c = record {
  level = text_or c.level (codes "info");
  format = text_or c.format (codes "json");
}

abbrev pub default_metrics_topics : Bytes → List Bytes
default_metrics_topics ome = (ome ++ codes ".telemetry") ∷ (ome ++ codes ".health") ∷ []

abbrev pub default_log_topics : Bytes → List Bytes
default_log_topics ome =
    (ome ++ codes ".alerts") ∷ (ome ++ codes ".auditlogs") ∷ (ome ++ codes ".inventory") ∷ []

-- The topics take the identifier as its own default has left it.
routing_defaults : Bytes → TopicRoutingConfig → TopicRoutingConfig
routing_defaults ome c = record {
  metrics_topics = list_or c.metrics_topics (default_metrics_topics ome);
  log_topics = list_or c.log_topics (default_log_topics ome);
}

unfoldable pub apply_defaults : Config → Config
unfolding kafka_defaults remote_write_defaults loki_defaults cache_defaults log_defaults
    routing_defaults
apply_defaults c =
    let k = kafka_defaults c.kafka in
    record c {
      kafka = k;
      remote_write = remote_write_defaults c.remote_write;
      loki = loki_defaults c.loki;
      cache = cache_defaults c.cache;
      api = record { listen_addr = text_or c.api.listen_addr (codes "0.0.0.0:8080") };
      log = log_defaults c.log;
      topic_routing = routing_defaults k.ome_identifier c.topic_routing;
    }

pub data ConfigError : Type 0 where
  reading_config_file parsing_config remote_write_url_required loki_url_required : ConfigError

-- `none` is the nil error.
unfoldable pub validate : Config → Option ConfigError
validate c = elim c.remote_write.url [
  | [] ↦ some remote_write_url_required
  | _ ∷ _ ↦ elim c.loki.url [ [] ↦ some loki_url_required | _ ∷ _ ↦ none ]
]

-- os.ReadFile, and yaml.Unmarshal into an empty Config; `none` is an error.
module _ (read_file : Bytes → Option Bytes) (unmarshal : Bytes → Option Config) where
  decode : Option Bytes → Option Config × Option ConfigError
  decode none = (none, some reading_config_file)
  decode (some contents) = elim (unmarshal contents) [
    | none ↦ (none, some parsing_config)
    | some c ↦ (let c' = apply_defaults c in (some c', validate c'))
  ]

  -- The configuration comes back beside the error of its validation too.
  unfoldable pub load : Bytes → Option Config × Option ConfigError
  unfolding decode
  load path = decode (read_file path)
