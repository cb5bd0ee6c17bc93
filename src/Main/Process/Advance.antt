-- ===== src/Main/Process/Advance.antt =====
-- The invariant and the statements of main after the start.
use ome_kafka_bridge.Common.{
  ℕ, ◌≡◌, ◌⊎◌, inl, inr, refl, arith, Bool, true, false, ◌||◌, Option, none, some, is_some,
}
use ome_kafka_bridge.Broker.Outcome.{Outcome, done, panic, stuck, close_channel}
use ome_kafka_bridge.Broker.State
use ome_kafka_bridge.Broker.State.{Broker, Message, capacity}
use ome_kafka_bridge.Cache
use ome_kafka_bridge.Cache.{Cache, Retry}
use ome_kafka_bridge.Main.Process.{
  Stage, serving, closing_broker, closing_metrics, closing_logs, closing_cache, stopping_api,
  returned, crashed, Process, close_broker, close_metrics, close_logs, close_cache, advance, World,
}
use ome_kafka_bridge.Main.Process.Invariant.{Closed, IsSound}

pub close_open : (cache : Option Cache) → Cache.close cache false ≡ done (is_some cache)
unfolding Cache.close close_channel
close_open none = refl
close_open (some c) = refl

module _ (w : World) where
  -- Main goes on to a stage, with these channels closed.
  abbrev moved : Process w.fs → Stage → Bool → Bool → Bool → Bool → Bool → Bool → Process w.fs
  moved s stage listening ctx closed metrics logs cache = record s {
    stage = stage;
    listening = listening;
    cancelled = ctx;
    broker = record s.broker { closed = closed };
    metrics_closed = metrics;
    logs_closed = logs;
    cache_closed = cache;
  }

  -- What main may do to the channels: it closes some, and does not open any again.
  abbrev Later : Bool → Bool → Type 0
  Later b c = (b ≡ c) ⊎ (c ≡ true)

  Later-or : (a b c d : Bool) → Later b c → (a || b) ≡ d → (c ≡ true → d ≡ true) → (a || c) ≡ d
  Later-or a b c d h e k = ground arith

  IsSound-moved :
      (m n : ℕ) (s : Process w.fs) (stage : Stage) (listening ctx closed metrics logs cache : Bool)
      → IsSound w m n s
      → Closed ctx closed metrics logs cache stage
      → Later s.cancelled ctx
      → (listening || closed) ≡ true
      → Later s.metrics_closed metrics
      → Later s.logs_closed logs
      → (s.retrying || cache) ≡ is_some s.cache
      → IsSound w m n (moved s stage listening ctx closed metrics logs cache)
  IsSound-moved m n s stage listening ctx closed metrics logs cache h ordered hc hb hm hl hr =
      record {
        room = h.room;
        topics = h.topics;
        bounded = h.bounded;
        in_order = ordered;
        consumer = Later-or s.consuming s.cancelled ctx true hc h.consumer (λ _. refl);
        metrics_loop =
            Later-or s.flushing_metrics s.metrics_closed metrics true hm h.metrics_loop (λ _. refl);
        logs_loop = Later-or s.flushing_logs s.logs_closed logs true hl h.logs_loop (λ _. refl);
        retry_loop = hr;
        listener = hb;
      }

  -- Main's next statement does not panic, and keeps the invariant.
  abbrev pub IsFine : ℕ → ℕ → Outcome (Process w.fs) → Type 0
  IsFine m n (done t) = IsSound w m n t
  IsFine m n panic = ⊥
  IsFine m n stuck = ⊥

  pub advance-IsFine :
      (m n : ℕ) (stage : Stage) (s : Process w.fs)
      → s.stage ≡ stage
      → IsSound w m n s
      → IsFine m n (advance w.fs stage s)
  unfolding advance close_broker close_metrics close_logs close_cache State.close close_channel
  advance-IsFine m n serving s at_ h =
      let (ctx, b, mc, lc, cc_) = rw at_ at h.in_order in
      IsSound-moved m n s closing_broker s.listening true s.broker.closed s.metrics_closed
        s.logs_closed s.cache_closed h (refl, b, mc, lc, cc_) (inr refl) h.listener (inl refl)
        (inl refl) h.retry_loop
  advance-IsFine m n closing_broker s at_ h =
      let (ctx, b, mc, lc, cc_) = rw at_ at h.in_order in
      rw b (
        IsSound-moved m n s closing_metrics false s.cancelled true s.metrics_closed s.logs_closed
          s.cache_closed h (ctx, refl, mc, lc, cc_) (inl refl) refl (inl refl) (inl refl)
          h.retry_loop)
  advance-IsFine m n closing_metrics s at_ h =
      let (ctx, b, mc, lc, cc_) = rw at_ at h.in_order in
      rw mc (
        IsSound-moved m n s closing_logs s.listening s.cancelled s.broker.closed true s.logs_closed
          s.cache_closed h (ctx, b, refl, lc, cc_) (inl refl) h.listener (inr refl) (inl refl)
          h.retry_loop)
  advance-IsFine m n closing_logs s at_ h =
      let (ctx, b, mc, lc, cc_) = rw at_ at h.in_order in
      rw lc (
        IsSound-moved m n s closing_cache s.listening s.cancelled s.broker.closed s.metrics_closed
          true s.cache_closed h (ctx, b, mc, refl, cc_) (inl refl) h.listener (inl refl) (inr refl)
          h.retry_loop)
  advance-IsFine m n closing_cache s at_ h =
      let (ctx, b, mc, lc, cc_) = rw at_ at h.in_order in
      let looping : (s.retrying || is_some s.cache) ≡ is_some s.cache =
        (let loop = h.retry_loop in ground arith) in
      rw (cc_, close_open s.cache)
        (IsSound-moved m n s stopping_api s.listening s.cancelled s.broker.closed s.metrics_closed
          s.logs_closed (is_some s.cache) h (ctx, b, mc, lc) (inl refl) h.listener (inl refl)
          (inl refl) looping)
  advance-IsFine m n stopping_api s at_ h =
      let (ctx, b, mc, lc) = rw at_ at h.in_order in
      IsSound-moved m n s returned s.listening s.cancelled s.broker.closed s.metrics_closed
        s.logs_closed s.cache_closed h (ctx, b, mc, lc) (inl refl) h.listener (inl refl) (inl refl)
        h.retry_loop
  advance-IsFine m n returned s at_ h = h
  advance-IsFine m n crashed s at_ h = h
