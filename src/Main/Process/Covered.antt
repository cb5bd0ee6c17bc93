-- ===== src/Main/Process/Covered.antt =====
-- Less than a batch is pending in a forwarder, or it is about to be flushed.
use ome_kafka_bridge.Common.{ℕ, ◌<◌, arith, inl, inr, Option-cases, List, [], ◌∷◌, ◌++◌}
use ome_kafka_bridge.Broker.State.{Message}
use ome_kafka_bridge.Forwarder.Metrics.{append_samples}
use ome_kafka_bridge.Forwarder.Logs.{append_entry}
use ome_kafka_bridge.Forwarder.Batches.{flush-pending, flush_logs-pending}
use ome_kafka_bridge.Parser.{parse}
use ome_kafka_bridge.Main.{Pipeline}
use ome_kafka_bridge.Main.Tasks.{
  Task, add_samples, add_entry, flush_samples, flush_entries, perform, afterwards, take_message,
}
use ome_kafka_bridge.Main.Events.{metrics_tick, log_tick, step}
use ome_kafka_bridge.Main.Process.{World, happens, takes, does, goes_on}
use ome_kafka_bridge.Main.Process.Invariant.{IsCovered}

module _ (m n : ℕ) where
  pub IsCovered-swap :
      {p : Pipeline} {consumer retry : List Task}
      → IsCovered m n p consumer retry
      → IsCovered m n p retry consumer
  IsCovered-swap h = record {
    metrics_size = h.metrics_size;
    log_size = h.log_size;
    metrics_pending = (let k = h.metrics_pending in ground arith);
    log_pending = (let k = h.log_pending in ground arith);
  }

  -- A goroutine that has nothing to do gets something.
  pub IsCovered-begin :
      (p : Pipeline) (todo other : List Task)
      → IsCovered m n p [] other
      → IsCovered m n p todo other
  IsCovered-begin p todo other h = record {
    metrics_size = h.metrics_size;
    log_size = h.log_size;
    metrics_pending = (let k = h.metrics_pending in ground arith);
    log_pending = (let k = h.log_pending in ground arith);
  }

module _ (w : World) (m n : ℕ) where
  pub takes-IsCovered :
      (msg : Message) (p : Pipeline) (other : List Task)
      → IsCovered m n p [] other
      → IsCovered m n (takes w msg p).0 (takes w msg p).1 other
  unfolding take_message
  takes-IsCovered msg p other h =
      let same : IsCovered m n (takes w msg p).0 [] other =
        (elim (Option-cases (parse w.platform msg.topic msg.value)) [
          | inl bad ↦
              rw (bad, take_message)
                (record {
                  metrics_size = h.metrics_size;
                  log_size = h.log_size;
                  metrics_pending = h.metrics_pending;
                  log_pending = h.log_pending;
                })
          | inr (parsed, good) ↦
              rw (good, take_message)
                (record {
                  metrics_size = h.metrics_size;
                  log_size = h.log_size;
                  metrics_pending = h.metrics_pending;
                  log_pending = h.log_pending;
                })
        ]) in
      IsCovered-begin m n (takes w msg p).0 (takes w msg p).1 other same

  module _ (positive_m : 0 < m) (positive_n : 0 < n) where
    pub does-IsCovered :
        (t : Task) (rest : List Task) (p : Pipeline) (other : List Task)
        → IsCovered m n p (t ∷ rest) other
        → IsCovered m n (does w t p).0 (goes_on w t p ++ rest) other
    unfolding perform afterwards append_samples append_entry
    does-IsCovered (add_samples samples) rest p other h = record {
      metrics_size = h.metrics_size;
      log_size = h.log_size;
      metrics_pending = (let k = h.metrics_pending in let e = h.metrics_size in ground arith);
      log_pending = (let k = h.log_pending in ground arith);
    }
    does-IsCovered (add_entry entry) rest p other h = record {
      metrics_size = h.metrics_size;
      log_size = h.log_size;
      metrics_pending = (let k = h.metrics_pending in ground arith);
      log_pending = (let k = h.log_pending in let e = h.log_size in ground arith);
    }
    does-IsCovered flush_samples rest p other h =
        let (cfg, empty) = flush-pending w.range w.order w.compress p.metrics_fwd in
        record {
          metrics_size = ground (arith, cfg, h.metrics_size);
          log_size = h.log_size;
          metrics_pending = ground (arith, empty);
          log_pending = (let k = h.log_pending in ground arith);
        }
    does-IsCovered flush_entries rest p other h =
        let (cfg, empty) = flush_logs-pending w.range w.order w.compress p.log_fwd in
        record {
          metrics_size = h.metrics_size;
          log_size = ground (arith, cfg, h.log_size);
          metrics_pending = (let k = h.metrics_pending in ground arith);
          log_pending = ground (arith, empty);
        }

  pub tick-IsCovered :
      0 < m
      → (p : Pipeline) (consumer retry : List Task) → IsCovered m n p consumer retry
      → IsCovered m n (happens w metrics_tick p).0 consumer retry
  unfolding step
  tick-IsCovered positive p consumer retry h =
      let (cfg, empty) = flush-pending w.range w.order w.compress p.metrics_fwd in
      record {
        metrics_size = ground (arith, cfg, h.metrics_size);
        log_size = h.log_size;
        metrics_pending = ground (arith, empty);
        log_pending = h.log_pending;
      }

  pub log_tick-IsCovered :
      0 < n
      → (p : Pipeline) (consumer retry : List Task) → IsCovered m n p consumer retry
      → IsCovered m n (happens w log_tick p).0 consumer retry
  unfolding step
  log_tick-IsCovered positive p consumer retry h =
      let (cfg, empty) = flush_logs-pending w.range w.order w.compress p.log_fwd in
      record {
        metrics_size = h.metrics_size;
        log_size = ground (arith, cfg, h.log_size);
        metrics_pending = h.metrics_pending;
        log_pending = ground (arith, empty);
      }
