-- ===== src/Examples/Pipeline.antt =====
-- A pipeline that routes one topic of telemetry, and a configuration with a negative flush interval.
use ome_kafka_bridge.Common.{
  ◌≡◌, refl, Bool, true, Option, none, some, [], ◌∷◌, Bytes, codes, pos, negsuc,
}
use ome_kafka_bridge.Config.{Config, int_or, load, validate, apply_defaults}
use ome_kafka_bridge.Broker.State.{Message, now}
use ome_kafka_bridge.Broker.Outcome.{panic}
use ome_kafka_bridge.Relabel.{Regexp}
use ome_kafka_bridge.Parser.Topics.{topic_kind}
use ome_kafka_bridge.Parser.Messages.{is_metrics}
use ome_kafka_bridge.Forwarder.Client.{Certificates}
use ome_kafka_bridge.Forwarder.Metrics.{new_metrics_forwarder}
use ome_kafka_bridge.Cache
use ome_kafka_bridge.Cache.{CachedEntry, retry_logs}
use ome_kafka_bridge.Cache.Memory.{memory}
use ome_kafka_bridge.Main.Start.{with_cache, start_cache, start_loaded, start}
use ome_kafka_bridge.Main.Panics.{has_negative_interval, start-panic}
use ome_kafka_bridge.Main.{Pipeline, process_message}
use ome_kafka_bridge.Main.Routing.{IsRouted, process_message-IsRouted}
use ome_kafka_bridge.Examples.Messages.{platform, topic}
use ome_kafka_bridge.Examples.Batches.{range, order, compress, metrics_forwarder, log_forwarder}
use ome_kafka_bridge.Examples.Settings.{settings}

abbrev pipeline : Pipeline
pipeline = record {
  metrics_topics = topic ∷ [];
  log_topics = [];
  metrics_fwd = metrics_forwarder;
  log_fwd = log_forwarder;
  received = [];
  dropped = [];
}

abbrev power : Message
power = record { topic = topic; partition = pos 0; key = []; value = []; timestamp = now }

process_message-IsRouted_example :
    IsRouted
      (is_metrics (topic_kind topic))
      pipeline
      (process_message range order compress platform power pipeline).0
      (process_message range order compress platform power pipeline).1
process_message-IsRouted_example =
    process_message-IsRouted range order compress platform power pipeline

abbrev hasty : Config
hasty = record settings {
  remote_write = record settings.remote_write { flush_interval = negsuc 0 };
}

abbrev read_file : Bytes → Option Bytes
read_file path = some []

abbrev unmarshal : Bytes → Option Config
unmarshal contents = some hasty

abbrev encode_json : CachedEntry → Option Bytes
encode_json e = none

abbrev decode_json : Bytes → Option CachedEntry
decode_json bytes = none

abbrev pub certs : Certificates
certs = record {
  Pool = Unit {0};
  Pair = Unit {0};
  read_file = λ path. none;
  pool_of = λ pem. tt;
  load_key_pair = λ cert key. none;
}

abbrev pub compile : Bytes → Option Regexp
compile text = none

abbrev pub trim : Bytes → Bytes
trim s = s

abbrev pub listen : Bytes → Bool
listen addr = true

-- The negative interval is accepted, and the program panics.
hasty-start :
    start memory encode_json decode_json compile certs trim listen read_file unmarshal
      (codes "config.yaml")
      []
    ≡ panic
unfolding start load validate apply_defaults start_loaded start_cache with_cache Cache.new
    new_metrics_forwarder int_or
hasty-start = refl

start-panic_example :
    (c : Config) × (load read_file unmarshal (codes "config.yaml") ≡ (some c, none))
    × (has_negative_interval c ≡ true)
start-panic_example =
    start-panic memory encode_json decode_json compile certs trim listen read_file unmarshal
      (codes "config.yaml") [] hasty-start
