-- ===== src/Main/Process/Drain.antt =====
-- The shutdown if the loops finish first: the pipeline takes what is in the channel once the signal has
-- come, and each flush loop flushes for the last time when its forwarder is closed.
use ome_kafka_bridge.Common.{
  ℕ, ◌<◌, ◌≡◌, ◌∙◌, sym, subst, refl, ap, arith, true, false, List, [], ◌∷◌, ◌++◌, map,
}
use ome_kafka_bridge.Broker.State.{Message}
use ome_kafka_bridge.Main.{Pipeline, Sent, nothing, both}
use ome_kafka_bridge.Main.Events.{Event, message, metrics_tick, log_tick, run_events}
use ome_kafka_bridge.Main.Process.{
  serving, returned, is_alive, Process, World, happens, metrics_flushed, logs_flushed,
}
use ome_kafka_bridge.Main.Process.Invariant.{IsSound}
use ome_kafka_bridge.Main.Process.Run.{run, run-append, both_assoc, both-nothing}
use ome_kafka_bridge.Main.Process.Shutdown.{View, view}
use ome_kafka_bridge.Main.Process.Consume.{Comes, reach_next, take_all}

-- The rest of the messages, and a flush of each forwarder.
abbrev pub rest_of : List Message → List Event
rest_of msgs = map message msgs ++ (metrics_tick ∷ log_tick ∷ [])

module _ (w : World) (m n : ℕ) (positive_m : 0 < m) (positive_n : 0 < n) (s : Process w.fs) where
  flush_metrics :
      (out : Sent) (v : View w)
      → is_alive v.stage ≡ true
      → v.flushing_metrics ≡ true
      → Comes w m n positive_m positive_n s out v
      → Comes w m n positive_m positive_n s
          (both out (happens w metrics_tick v.pipeline).1)
          (record v { pipeline = (happens w metrics_tick v.pipeline).0 })
  flush_metrics out v alive on r =
      let p_is : r.process.pipeline ≡ v.pipeline = ap (λ (x : View w). x.pipeline) r.looks in
      subst
        (λ (q : Pipeline).
          Comes w m n positive_m positive_n s (both out (happens w metrics_tick q).1)
            (record v { pipeline = (happens w metrics_tick q).0 }))
        p_is
        (reach_next w m n positive_m positive_n s r _ alive
          (metrics_flushed (ap (λ (x : View w). x.flushing_metrics) r.looks ∙ on))
          (ap
            (λ (x : View w). record x { pipeline = (happens w metrics_tick r.process.pipeline).0 })
            r.looks))

  flush_logs :
      (out : Sent) (v : View w)
      → is_alive v.stage ≡ true
      → v.flushing_logs ≡ true
      → Comes w m n positive_m positive_n s out v
      → Comes w m n positive_m positive_n s
          (both out (happens w log_tick v.pipeline).1)
          (record v { pipeline = (happens w log_tick v.pipeline).0 })
  flush_logs out v alive on r =
      let p_is : r.process.pipeline ≡ v.pipeline = ap (λ (x : View w). x.pipeline) r.looks in
      subst
        (λ (q : Pipeline).
          Comes w m n positive_m positive_n s (both out (happens w log_tick q).1)
            (record v { pipeline = (happens w log_tick q).0 }))
        p_is
        (reach_next w m n positive_m positive_n s r _ alive
          (logs_flushed (ap (λ (x : View w). x.flushing_logs) r.looks ∙ on))
          (ap (λ (x : View w). record x { pipeline = (happens w log_tick r.process.pipeline).0 })
            r.looks))

  -- The messages one by one, and then two flushes, is the run of the rest.
  abbrev Ends : View w → (Pipeline × Sent) → Type 0
  Ends v x = Comes w m n positive_m positive_n s x.1 (record v { pipeline = x.0 })

  ends_rest :
      (msgs : List Message) (p : Pipeline) (v : View w)
      → Ends v (
        (happens w log_tick (happens w metrics_tick (run w (map message msgs) p).0).0).0,
        both
            (both
              (run w (map message msgs) p).1
              (happens w metrics_tick (run w (map message msgs) p).0).1)
            (happens w log_tick (happens w metrics_tick (run w (map message msgs) p).0).0).1,
      )
      → Ends v (run w (rest_of msgs) p)
  unfolding run_events
  ends_rest msgs p v r =
      let out = (run w (map message msgs) p).1 in
      let (p', first) = happens w metrics_tick (run w (map message msgs) p).0 in
      let (p'', second) = happens w log_tick p' in
      rw (run-append w (map message msgs) (metrics_tick ∷ log_tick ∷ []) p) (
        subst (λ (x : Sent). Ends v (p'', x))
          (both_assoc out first second
            ∙ ap (λ (x : Sent). both out (both first x)) (sym (both-nothing second)))
          r)

  pub serving-loops :
      IsSound w m n s
      → s.stage ≡ serving
      → (s.consuming ≡ true) × (s.flushing_metrics ≡ true) × (s.flushing_logs ≡ true)
  serving-loops sound at_ =
      let (ctx, b, metrics, logs, cache) = rw at_ at sound.in_order in
      let consumer = sound.consumer in
      let metrics_loop = sound.metrics_loop in
      let logs_loop = sound.logs_loop in (ground arith, ground arith, ground arith)

  -- The channel is emptied, and what is pending is flushed, while the process serves.
  pub drain :
      (v : View w)
      → v.stage ≡ serving
      → v.consuming ≡ true
      → v.flushing_metrics ≡ true
      → v.flushing_logs ≡ true
      → v.todo ≡ []
      → Comes w m n positive_m positive_n s nothing v
      → Ends (record v { channel = []; todo = [] }) (run w (rest_of v.channel) v.pipeline)
  unfolding is_alive
  drain v at_ consuming metrics logs todo r =
      let alive : is_alive v.stage ≡ true = rw at_ refl in
      ends_rest v.channel v.pipeline (record v { channel = []; todo = [] })
        (flush_logs _ _ alive logs (
          flush_metrics _ _ alive metrics (
            take_all w m n positive_m positive_n s v.channel nothing v alive consuming todo refl
              r)))

  -- What the shutdown can leave.
  abbrev pub finished : View w
  finished = record (view w s) {
    stage = returned;
    channel = [];
    todo = [];
    consuming = false;
    flushing_metrics = false;
    flushing_logs = false;
  }
