-- ===== src/Forwarder/Ticker.antt =====
-- When the constructors of the forwarders panic.
use ome_kafka_bridge.Common.{
  ◌≡◌, ◌≢◌, arith, Bool, true, false, Option, List, Bytes, ℤ, pos, negsuc,
}
use ome_kafka_bridge.Config.{RemoteWriteConfig, LokiConfig, RelabelConfig}
use ome_kafka_bridge.Labels.{Labels}
use ome_kafka_bridge.Broker.Outcome.{panic}
use ome_kafka_bridge.Relabel.{Regexp}
use ome_kafka_bridge.Forwarder.Client.{Certificates, start_ticker}
use ome_kafka_bridge.Forwarder.Metrics.{new_metrics_forwarder}
use ome_kafka_bridge.Forwarder.Logs.{new_log_forwarder}

abbrev pub is_negative : ℤ → Bool
is_negative (pos n) = false
is_negative (negsuc n) = true

module _ (compile : Bytes → Option Regexp) (certs : Certificates) (extra : Labels)
    (rules : List RelabelConfig) where
  pub new_metrics_forwarder-panic :
      (cfg : RemoteWriteConfig)
      → cfg.flush_interval ≢ pos 0
      → new_metrics_forwarder compile certs cfg extra rules ≡ panic
      → is_negative cfg.flush_interval ≡ true
  unfolding new_metrics_forwarder start_ticker
  new_metrics_forwarder-panic cfg nonzero h = ground arith

  pub new_log_forwarder-panic :
      (cfg : LokiConfig)
      → cfg.flush_interval ≢ pos 0
      → new_log_forwarder compile certs cfg extra rules ≡ panic
      → is_negative cfg.flush_interval ≡ true
  unfolding new_log_forwarder start_ticker
  new_log_forwarder-panic cfg nonzero h = ground arith
