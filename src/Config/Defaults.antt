-- ===== src/Config/Defaults.antt =====
-- What the defaults leave alone and what a loaded configuration satisfies.
use ome_kafka_bridge.Common.{
  ap, ◌≡◌, ◌≢◌, ◌*◌, codes, arith, Option-cases, inl, inr, refl, zero, suc, some, none, Option, [],
  ◌∷◌, List, Bytes, ℤ, pos, negsuc,
}
use ome_kafka_bridge.Config.{
  Config, KafkaConfig, RemoteWriteConfig, LokiConfig, CacheConfig, LogConfig, TopicRoutingConfig,
  ConfigError, text_or, int_or, list_or, kafka_defaults, remote_write_defaults, loki_defaults,
  cache_defaults, log_defaults, routing_defaults, apply_defaults, validate, decode, load, second,
  default_metrics_topics, default_log_topics,
}

text_or-text_or : (s d : Bytes) → text_or (text_or s d) d ≡ text_or s d
unfolding text_or
text_or-text_or [] [] = refl
text_or-text_or [] (x ∷ d) = refl
text_or-text_or (c ∷ s) d = refl

pub text_or-ne : (s d : Bytes) → d ≢ [] → text_or s d ≢ []
unfolding text_or
text_or-ne [] d h e = h e
text_or-ne (c ∷ s) d h e = cc

int_or-int_or : (z d : ℤ) → int_or (int_or z d) d ≡ int_or z d
unfolding int_or
int_or-int_or (pos zero) (pos zero) = refl
int_or-int_or (pos zero) (pos (suc n)) = refl
int_or-int_or (pos zero) (negsuc n) = refl
int_or-int_or (pos (suc n)) d = refl
int_or-int_or (negsuc n) d = refl

list_or-list_or {ℓ} : {A : Type ℓ} (xs d : List A) → list_or (list_or xs d) d ≡ list_or xs d
unfolding list_or
list_or-list_or [] [] = refl
list_or-list_or [] (x ∷ d) = refl
list_or-list_or (x ∷ xs) d = refl

int_or-ne : (z d : ℤ) → d ≢ pos 0 → int_or z d ≢ pos 0
unfolding int_or
int_or-ne (pos zero) d h e = h e
int_or-ne (pos (suc n)) d h e = cc
int_or-ne (negsuc n) d h e = cc

list_or-ne {ℓ} : {A : Type ℓ} (xs : List A) (x : A) (d : List A) → list_or xs (x ∷ d) ≢ []
unfolding list_or
list_or-ne [] x d e = cc
list_or-ne (y ∷ xs) x d e = cc

kafka_twice : (c : KafkaConfig) → kafka_defaults (kafka_defaults c) ≡ kafka_defaults c
unfolding kafka_defaults
kafka_twice c = λ i. record c {
  listen_addr = text_or-text_or c.listen_addr (codes "0.0.0.0:9092") i;
  ome_identifier = text_or-text_or c.ome_identifier (codes "ome") i;
  num_partitions = int_or-int_or c.num_partitions (pos 1) i;
  replication_factor = int_or-int_or c.replication_factor (pos 1) i;
}

remote_write_twice :
    (c : RemoteWriteConfig)
    → remote_write_defaults (remote_write_defaults c) ≡ remote_write_defaults c
unfolding remote_write_defaults
remote_write_twice c = λ i. record c {
  batch_size = int_or-int_or c.batch_size (pos 500) i;
  flush_interval = int_or-int_or c.flush_interval (pos (10 * second)) i;
}

loki_twice : (c : LokiConfig) → loki_defaults (loki_defaults c) ≡ loki_defaults c
unfolding loki_defaults
loki_twice c = λ i. record c {
  batch_size = int_or-int_or c.batch_size (pos 100) i;
  flush_interval = int_or-int_or c.flush_interval (pos (5 * second)) i;
}

cache_twice : (c : CacheConfig) → cache_defaults (cache_defaults c) ≡ cache_defaults c
unfolding cache_defaults
cache_twice c = λ i. record c {
  dir = text_or-text_or c.dir (codes "/var/lib/ome-kafka-bridge/cache") i;
  max_size_mb = int_or-int_or c.max_size_mb (pos 512) i;
  retry_interval = int_or-int_or c.retry_interval (pos (30 * second)) i;
  max_age = int_or-int_or c.max_age (pos (24 * 3600 * second)) i;
}

log_twice : (c : LogConfig) → log_defaults (log_defaults c) ≡ log_defaults c
unfolding log_defaults
log_twice c = λ i. record {
  level = text_or-text_or c.level (codes "info") i;
  format = text_or-text_or c.format (codes "json") i;
}

routing_twice :
    (ome : Bytes) (c : TopicRoutingConfig)
    → routing_defaults ome (routing_defaults ome c) ≡ routing_defaults ome c
unfolding routing_defaults
routing_twice ome c = λ i. record {
  metrics_topics = list_or-list_or c.metrics_topics (default_metrics_topics ome) i;
  log_topics = list_or-list_or c.log_topics (default_log_topics ome) i;
}

-- The topics that a configuration gets if it names none start with the identifier as its default
-- has left it, which the second time is the same.
routing_again :
    (k : KafkaConfig) (c : TopicRoutingConfig)
    → routing_defaults
        (kafka_defaults (kafka_defaults k)).ome_identifier
        (routing_defaults (kafka_defaults k).ome_identifier c)
      ≡ routing_defaults (kafka_defaults k).ome_identifier c
routing_again k c = rw (kafka_twice k) (routing_twice (kafka_defaults k).ome_identifier c)

-- The defaults only fill in what is missing: to apply them again changes nothing.
pub apply_defaults-apply_defaults :
    (c : Config) → apply_defaults (apply_defaults c) ≡ apply_defaults c
unfolding apply_defaults
apply_defaults-apply_defaults c = λ i. record c {
  kafka = kafka_twice c.kafka i;
  remote_write = remote_write_twice c.remote_write i;
  loki = loki_twice c.loki i;
  cache = cache_twice c.cache i;
  api = record { listen_addr = text_or-text_or c.api.listen_addr (codes "0.0.0.0:8080") i };
  log = log_twice c.log i;
  topic_routing = routing_again c.kafka c.topic_routing i;
}

-- What the rest of the program relies on: both addresses are there, topics are routed to both
-- stores, and no batch size or interval is zero.
pub record IsReady (c : Config) : Type 0 where
  pub remote_write_url : c.remote_write.url ≢ []
  pub loki_url : c.loki.url ≢ []
  pub metrics_topics : c.topic_routing.metrics_topics ≢ []
  pub log_topics : c.topic_routing.log_topics ≢ []
  pub metrics_batch : c.remote_write.batch_size ≢ pos 0
  pub logs_batch : c.loki.batch_size ≢ pos 0
  pub metrics_interval : c.remote_write.flush_interval ≢ pos 0
  pub logs_interval : c.loki.flush_interval ≢ pos 0
  pub retry_interval : c.cache.retry_interval ≢ pos 0

validate-none : (c : Config) → validate c ≡ none → (c.remote_write.url ≢ []) × (c.loki.url ≢ [])
unfolding validate
validate-none c h = ground arith

apply_defaults-IsReady :
    (c : Config) → validate (apply_defaults c) ≡ none → IsReady (apply_defaults c)
unfolding apply_defaults remote_write_defaults loki_defaults cache_defaults routing_defaults
apply_defaults-IsReady c h = record {
  remote_write_url = (validate-none (apply_defaults c) h).0;
  loki_url = (validate-none (apply_defaults c) h).1;
  metrics_topics = list_or-ne _ _ _;
  log_topics = list_or-ne _ _ _;
  metrics_batch = int_or-ne c.remote_write.batch_size (pos 500) (λ e. cc);
  logs_batch = int_or-ne c.loki.batch_size (pos 100) (λ e. cc);
  metrics_interval = int_or-ne c.remote_write.flush_interval (pos (10 * second)) (λ e. cc);
  logs_interval = int_or-ne c.loki.flush_interval (pos (5 * second)) (λ e. cc);
  retry_interval = int_or-ne c.cache.retry_interval (pos (30 * second)) (λ e. cc);
}

checked-IsReady :
    (d c : Config)
    → ◌≡◌ {A = Option Config × Option ConfigError}
        (some (apply_defaults d), validate (apply_defaults d))
        (some c, none)
    → IsReady c × (apply_defaults c ≡ c)
checked-IsReady d c h =
    let e : apply_defaults d ≡ c = cc in
    let v : validate (apply_defaults d) ≡ none = cc in
    rw (← e) (apply_defaults-IsReady d v, apply_defaults-apply_defaults d)

module _ (read_file : Bytes → Option Bytes) (unmarshal : Bytes → Option Config) where
  decode-IsReady :
      (file : Option Bytes) (c : Config)
      → decode read_file unmarshal file ≡ (some c, none)
      → IsReady c × (apply_defaults c ≡ c)
  unfolding decode
  decode-IsReady none c h = absurd (grind arith)
  decode-IsReady (some contents) c h = elim (Option-cases (unmarshal contents)) [
    | inl bad ↦ absurd (grind (arith, rw (bad, decode) at h))
    | inr (d, good) ↦ checked-IsReady d c (rw (good, decode) at h)
  ]

  -- Whatever the file system and the YAML decoder give: a configuration that loads without an error
  -- has what the rest of the program relies on, and the defaults leave it as it is.
  pub load-IsReady :
      (path : Bytes) (c : Config)
      → load read_file unmarshal path ≡ (some c, none)
      → IsReady c × (apply_defaults c ≡ c)
  unfolding load
  load-IsReady path c h = decode-IsReady (read_file path) c h

  -- Load without an error gives a configuration.
  pub load-some : (path : Bytes) → load read_file unmarshal path ≢ (none, none)
  unfolding load decode
  load-some path h = ground arith

  -- What is loaded has the timeout that is written.
  pub load-timeout :
      (path contents : Bytes) (written c : Config)
      → read_file path ≡ some contents
      → unmarshal contents ≡ some written
      → load read_file unmarshal path ≡ (some c, none)
      → c.remote_write.timeout ≡ written.remote_write.timeout
  unfolding load decode apply_defaults remote_write_defaults
  load-timeout path contents written c read decoded h =
      let e : ◌≡◌ {A = Option Config × Option ConfigError}
          (some (apply_defaults written), validate (apply_defaults written)) (some c, none) =
        rw (decoded, decode) at (rw (read, load) at h) in
      let same : c ≡ apply_defaults written = cc in ap (λ (x : Config). x.remote_write.timeout) same
