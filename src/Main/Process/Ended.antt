-- ===== src/Main/Process/Ended.antt =====
-- A flush loop that ends has flushed.
use ome_kafka_bridge.Common.{◌≡◌, ◌⊎◌, []}
use ome_kafka_bridge.Main.Process.{Process, World}

module _ (w : World) where
  -- Each flush loop is as it was, or its forwarder has nothing pending.
  abbrev pub EndsFlushed : Process w.fs → Process w.fs → Type 0
  EndsFlushed s t =
      ((t.flushing_metrics ≡ s.flushing_metrics) ⊎ (t.pipeline.metrics_fwd.pending ≡ []))
      × ((t.flushing_logs ≡ s.flushing_logs) ⊎ (t.pipeline.log_fwd.pending ≡ []))
