-- ===== src/Examples/Settings.antt =====
-- A configuration that names only the two addresses.
use ome_kafka_bridge.Common.{◌≡◌, ◌≢◌, refl, false, none, some, [], Bytes, codes, pos, Option}
use ome_kafka_bridge.Config.{Config, TlsConfig, apply_defaults, validate, load}
use ome_kafka_bridge.Config.Defaults.{IsReady, load-IsReady}
use ome_kafka_bridge.Http.{status}
use ome_kafka_bridge.Forwarder.Metrics.{send}
use ome_kafka_bridge.Forwarder.Deadline.{send-no_timeout}

abbrev tls : TlsConfig
tls = record { insecure_skip_verify = false; ca_file = []; cert_file = []; key_file = [] }

abbrev pub settings : Config
settings = record {
  kafka = record {
    listen_addr = [];
    ome_identifier = [];
    advertised_host = [];
    advertised_port = pos 0;
    topics = [];
    auto_create_topics = false;
    num_partitions = pos 0;
    replication_factor = pos 0;
  };
  remote_write = record {
    url = codes "http://vm:8428/api/v1/write";
    timeout = pos 0;
    username = [];
    password = [];
    tls = tls;
    batch_size = pos 0;
    flush_interval = pos 0;
  };
  loki = record {
    url = codes "http://loki:3100";
    timeout = pos 0;
    tls = tls;
    batch_size = pos 0;
    flush_interval = pos 0;
  };
  cache = record {
    enabled = false;
    dir = [];
    max_size_mb = pos 0;
    retry_interval = pos 0;
    max_age = pos 0;
  };
  extra_labels = [];
  relabel_configs = [];
  log_relabel_cfgs = [];
  topic_routing = record { metrics_topics = []; log_topics = [] };
  api = record { listen_addr = [] };
  log = record { level = []; format = [] };
}

abbrev read_file : Bytes → Option Bytes
read_file path = some []

abbrev unmarshal : Bytes → Option Config
unmarshal contents = some settings

settings-load :
    load read_file unmarshal (codes "config.yaml") ≡ (some (apply_defaults settings), none)
unfolding load validate apply_defaults
settings-load = refl

load-IsReady_example :
    IsReady (apply_defaults settings)
    × (apply_defaults (apply_defaults settings) ≡ apply_defaults settings)
load-IsReady_example =
    load-IsReady read_file unmarshal (codes "config.yaml") (apply_defaults settings) settings-load

send-no_timeout_example :
    send (λ s. s) (λ r. status 204) (apply_defaults settings).remote_write [] ≢ none
send-no_timeout_example =
    send-no_timeout read_file unmarshal (codes "config.yaml") [] settings (apply_defaults settings)
      (λ s. s) (λ r. status 204) [] refl refl refl settings-load
