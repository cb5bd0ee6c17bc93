-- ===== src/Main/Process/Invariant.antt =====
-- What holds of a process at every moment.
use ome_kafka_bridge.Common.{
  ℕ, ◌≤◌, ◌≡◌, Bool, true, false, ◌||◌, Option, is_some, List, [], ◌∷◌, Bytes, length, ltb, pos,
}
use ome_kafka_bridge.Broker.State.{Broker, capacity}
use ome_kafka_bridge.Broker.Metadata.Topics.{IsSetOf}
use ome_kafka_bridge.Parser.Model.{Time}
use ome_kafka_bridge.Main.{Pipeline}
use ome_kafka_bridge.Main.Tasks.{Task, add_samples, add_entry, flush_samples, flush_entries}
use ome_kafka_bridge.Main.Process.{
  Stage, serving, closing_broker, closing_metrics, closing_logs, closing_cache, stopping_api,
  returned, crashed, Process, World,
}

-- How many of the channels that end the goroutines main has closed: the context, the broker, the
-- forwarders and the cache, in this order.
abbrev pub Closed : Bool → Bool → Bool → Bool → Bool → Stage → Type 0
Closed ctx broker metrics logs cache serving =
    (ctx ≡ false) × (broker ≡ false) × (metrics ≡ false) × (logs ≡ false) × (cache ≡ false)
Closed ctx broker metrics logs cache closing_broker =
    (ctx ≡ true) × (broker ≡ false) × (metrics ≡ false) × (logs ≡ false) × (cache ≡ false)
Closed ctx broker metrics logs cache closing_metrics =
    (ctx ≡ true) × (broker ≡ true) × (metrics ≡ false) × (logs ≡ false) × (cache ≡ false)
Closed ctx broker metrics logs cache closing_logs =
    (ctx ≡ true) × (broker ≡ true) × (metrics ≡ true) × (logs ≡ false) × (cache ≡ false)
Closed ctx broker metrics logs cache closing_cache =
    (ctx ≡ true) × (broker ≡ true) × (metrics ≡ true) × (logs ≡ true) × (cache ≡ false)
Closed ctx broker metrics logs cache stopping_api =
    (ctx ≡ true) × (broker ≡ true) × (metrics ≡ true) × (logs ≡ true)
Closed ctx broker metrics logs cache returned =
    (ctx ≡ true) × (broker ≡ true) × (metrics ≡ true) × (logs ≡ true)
Closed ctx broker metrics logs cache crashed = Unit {0}

abbrev pub flushes_samples : List Task → Bool
flushes_samples [] = false
flushes_samples (add_samples samples ∷ rest) = false
flushes_samples (add_entry e ∷ rest) = false
flushes_samples (flush_samples ∷ rest) = true
flushes_samples (flush_entries ∷ rest) = false

abbrev pub flushes_entries : List Task → Bool
flushes_entries [] = false
flushes_entries (add_samples samples ∷ rest) = false
flushes_entries (add_entry e ∷ rest) = false
flushes_entries (flush_samples ∷ rest) = false
flushes_entries (flush_entries ∷ rest) = true

-- The batch sizes of the forwarders, and in each less than a batch, unless one of two goroutines goes
-- on with a flush of it.
pub record IsCovered (m n : ℕ) (p : Pipeline) (consumer retry : List Task) : Type 0 where
  pub metrics_size : p.metrics_fwd.cfg.batch_size ≡ pos m
  pub log_size : p.log_fwd.cfg.batch_size ≡ pos n
  pub metrics_pending :
      (ltb (length p.metrics_fwd.pending) m || (flushes_samples consumer || flushes_samples retry))
      ≡ true
  pub log_pending :
      (ltb (length p.log_fwd.pending) n || (flushes_entries consumer || flushes_entries retry))
      ≡ true

module _ (w : World) where
  abbrev pub InOrder : Process w.fs → Type 0
  InOrder s =
      Closed s.cancelled s.broker.closed s.metrics_closed s.logs_closed s.cache_closed s.stage

  -- The channel is within its capacity, the set lists no topic twice, less than a batch is pending or
  -- to be flushed at once, the channels are closed in order, and no loop has returned before its channel was closed.
  pub record IsSound (m n : ℕ) (s : Process w.fs) : Type 0 where
    pub room : length s.broker.msg_ch ≤ capacity
    pub topics : IsSetOf s.broker.topic_set
    pub bounded : IsCovered m n s.pipeline s.consumer_todo s.retry_todo
    pub in_order : InOrder s
    pub consumer : (s.consuming || s.cancelled) ≡ true
    pub metrics_loop : (s.flushing_metrics || s.metrics_closed) ≡ true
    pub logs_loop : (s.flushing_logs || s.logs_closed) ≡ true
    pub retry_loop : (s.retrying || s.cache_closed) ≡ is_some s.cache
    pub listener : (s.listening || s.broker.closed) ≡ true

  -- The parts of the invariant that a new broker or pipeline leaves as they are.
  pub IsSound-broker :
      (m n : ℕ) (s : Process w.fs) (b : Broker)
      → IsSound m n s
      → b.closed ≡ s.broker.closed
      → length b.msg_ch ≤ capacity
      → IsSetOf b.topic_set
      → IsSound m n (record s { broker = b })
  IsSound-broker m n s b h closed room topics = record {
    room = room;
    topics = topics;
    bounded = h.bounded;
    in_order = rw closed h.in_order;
    consumer = h.consumer;
    metrics_loop = h.metrics_loop;
    logs_loop = h.logs_loop;
    retry_loop = h.retry_loop;
    listener = rw closed h.listener;
  }

  pub IsSound-work :
      (m n : ℕ) (s : Process w.fs) (p : Pipeline) (consumer retry : List Task)
      → IsSound m n s
      → IsCovered m n p consumer retry
      → IsSound m n (record s { pipeline = p; consumer_todo = consumer; retry_todo = retry })
  IsSound-work m n s p consumer retry h bounded = record {
    room = h.room;
    topics = h.topics;
    bounded = bounded;
    in_order = h.in_order;
    consumer = h.consumer;
    metrics_loop = h.metrics_loop;
    logs_loop = h.logs_loop;
    retry_loop = h.retry_loop;
    listener = h.listener;
  }

  pub IsSound-crashed :
      (m n : ℕ) (s : Process w.fs) → IsSound m n s → IsSound m n (record s { stage = crashed })
  IsSound-crashed m n s h = record {
    room = h.room;
    topics = h.topics;
    bounded = h.bounded;
    in_order = tt;
    consumer = h.consumer;
    metrics_loop = h.metrics_loop;
    logs_loop = h.logs_loop;
    retry_loop = h.retry_loop;
    listener = h.listener;
  }

  pub IsSound-loops :
      (m n : ℕ) (s : Process w.fs) (consuming metrics logs retrying : Bool)
      → IsSound m n s
      → (consuming || s.cancelled) ≡ true
      → (metrics || s.metrics_closed) ≡ true
      → (logs || s.logs_closed) ≡ true
      → (retrying || s.cache_closed) ≡ is_some s.cache
      → IsSound m n (record s {
        consuming = consuming;
        flushing_metrics = metrics;
        flushing_logs = logs;
        retrying = retrying;
      })
  IsSound-loops m n s consuming metrics logs retrying h hc hm hl hr = record {
    room = h.room;
    topics = h.topics;
    bounded = h.bounded;
    in_order = h.in_order;
    consumer = hc;
    metrics_loop = hm;
    logs_loop = hl;
    retry_loop = hr;
    listener = h.listener;
  }

  pub IsSound-replay :
      (m n : ℕ) (s : Process w.fs) (d : w.fs.Disk) (round : Option (Time × List Bytes))
      (leaving : Option Bytes)
      → IsSound m n s
      → IsSound m n (record s { disk = d; round = round; leaving = leaving })
  IsSound-replay m n s d round leaving h = record {
    room = h.room;
    topics = h.topics;
    bounded = h.bounded;
    in_order = h.in_order;
    consumer = h.consumer;
    metrics_loop = h.metrics_loop;
    logs_loop = h.logs_loop;
    retry_loop = h.retry_loop;
    listener = h.listener;
  }
