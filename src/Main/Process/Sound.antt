-- ===== src/Main/Process/Sound.antt =====
-- The invariant and the steps of a process.
use ome_kafka_bridge.Common.{
  ℕ, ◌≤◌, ◌<◌, ◌≡◌, refl, arith, false, Option, none, some, List, [], Bytes, length,
}
use ome_kafka_bridge.Broker.Outcome.{done}
use ome_kafka_bridge.Broker.State.{Broker}
use ome_kafka_bridge.Broker.State.Channel.{length-send_all}
use ome_kafka_bridge.Broker.State.Grown.{Grown}
use ome_kafka_bridge.Broker.Metadata.Topics.{IsSetOf-add_topics}
use ome_kafka_bridge.Broker.Request.{handle_request}
use ome_kafka_bridge.Broker.Request.Conn.{max_request}
use ome_kafka_bridge.Broker.Request.Safety.{handle_request-Served}
use ome_kafka_bridge.Cache.{Retry}
use ome_kafka_bridge.Parser.Model.{Time}
use ome_kafka_bridge.Main.{Sent}
use ome_kafka_bridge.Main.Tasks.{retry_tasks}
use ome_kafka_bridge.Main.Process.{
  Process, World, replays, come_to, Step, Trace, served, request_panicked, consumed,
  consumer_performed, pipeline_left, metrics_flushed, metrics_stopped, logs_flushed, logs_stopped,
  round_began, replayed, retry_performed, file_removed, round_ended, retry_stopped, advanced,
  advance_panicked, here, next,
}
use ome_kafka_bridge.Main.Process.Covered.{
  IsCovered-swap, IsCovered-begin, takes-IsCovered, does-IsCovered, tick-IsCovered,
  log_tick-IsCovered,
}
use ome_kafka_bridge.Main.Process.Invariant.{
  IsSound, IsSound-broker, IsSound-work, IsSound-crashed, IsSound-loops, IsSound-replay,
}
use ome_kafka_bridge.Main.Process.Advance.{advance-IsFine}

module _ (w : World) where
  served-IsSound :
      (m n : ℕ) (s : Process w.fs) (order : List Bytes → List Bytes) (body : Bytes)
      (response : Option Bytes) (b : Broker)
      → length body ≤ max_request
      → handle_request order s.broker body ≡ done (response, b)
      → IsSound w m n s
      → IsSound w m n (record s { broker = b })
  served-IsSound m n s order body response b short e h =
      let grown : Grown s.broker b =
        rw e at (handle_request-Served order s.broker body (omega arith)) in
      let (ts, created) = grown.created in
      IsSound-broker w m n s b h grown.closed
        (rw grown.sent.result (length-send_all s.broker.msg_ch grown.sent.messages h.room))
        (rw created (IsSetOf-add_topics ts s.broker.topic_set h.topics))

  come_to-IsSound :
      (m n : ℕ) (s : Process w.fs) (path : Bytes) (came : w.fs.Disk × Option Retry)
      (round : Time × List Bytes)
      → s.retry_todo ≡ []
      → IsSound w m n s
      → IsSound w m n (come_to w s path came round)
  unfolding come_to
  come_to-IsSound m n s path (d, none) round idle h =
      IsSound-replay w m n s d (some round) s.leaving h
  come_to-IsSound m n s path (d, some r) round idle h =
      IsSound-replay w m n (record s { retry_todo = retry_tasks r }) s.disk (some round) (some path)
        (IsSound-work w m n s s.pipeline s.consumer_todo (retry_tasks r) h (
          IsCovered-swap m n (
            IsCovered-begin m n s.pipeline (retry_tasks r) s.consumer_todo
              (IsCovered-swap m n (rw idle at h.bounded)))))

  module _ (m n : ℕ) (positive_m : 0 < m) (positive_n : 0 < n) where
    pub Step-IsSound :
        {s t : Process w.fs} {out : Sent} → Step w s out t → IsSound w m n s → IsSound w m n t
    Step-IsSound {s} (served order body response b short e) h =
        served-IsSound m n s order body response b short e h
    Step-IsSound {s} (request_panicked order body short e) h = IsSound-crashed w m n s h
    Step-IsSound {s} (consumed msg rest on idle e) h =
        IsSound-work w m n (record s { broker = record s.broker { msg_ch = rest } }) _ _
          s.retry_todo
          (IsSound-broker w m n s (record s.broker { msg_ch = rest }) h refl
            (let fits = rw e at h.room in omega (arith, fits)) h.topics)
          (takes-IsCovered w m n msg s.pipeline s.retry_todo (rw idle at h.bounded))
    Step-IsSound {s} (consumer_performed t rest e) h = IsSound-work w m n s _ _ s.retry_todo h (
        does-IsCovered w m n positive_m positive_n t rest s.pipeline s.retry_todo
          (rw e at h.bounded))
    Step-IsSound {s} (pipeline_left cancelled idle) h =
        IsSound-loops w m n s false s.flushing_metrics s.flushing_logs s.retrying h cancelled
          h.metrics_loop h.logs_loop h.retry_loop
    Step-IsSound {s} (metrics_flushed on) h =
        IsSound-work w m n s _ s.consumer_todo s.retry_todo h
          (tick-IsCovered w m n positive_m s.pipeline s.consumer_todo s.retry_todo h.bounded)
    Step-IsSound {s} (metrics_stopped on closed) h =
        IsSound-loops w m n _ s.consuming false s.flushing_logs s.retrying
          (IsSound-work w m n s _ s.consumer_todo s.retry_todo h
            (tick-IsCovered w m n positive_m s.pipeline s.consumer_todo s.retry_todo h.bounded))
          h.consumer closed h.logs_loop h.retry_loop
    Step-IsSound {s} (logs_flushed on) h =
        IsSound-work w m n s _ s.consumer_todo s.retry_todo h
          (log_tick-IsCovered w m n positive_n s.pipeline s.consumer_todo s.retry_todo h.bounded)
    Step-IsSound {s} (logs_stopped on closed) h =
        IsSound-loops w m n _ s.consuming s.flushing_metrics false s.retrying
          (IsSound-work w m n s _ s.consumer_todo s.retry_todo h
            (log_tick-IsCovered w m n positive_n s.pipeline s.consumer_todo s.retry_todo h.bounded))
          h.consumer h.metrics_loop closed h.retry_loop
    Step-IsSound {s} (round_began c now on looping idle left) h =
        IsSound-replay w m n s s.disk _ s.leaving h
    Step-IsSound {s} (replayed c cutoff path paths on under_way idle left) h =
        come_to-IsSound m n s path (replays w c cutoff path s.disk) (cutoff, paths) idle h
    Step-IsSound {s} (retry_performed t rest e) h = IsSound-work w m n s _ s.consumer_todo _ h (
        IsCovered-swap m n (
          does-IsCovered w m n positive_m positive_n t rest s.pipeline s.consumer_todo
            (IsCovered-swap m n (rw e at h.bounded))))
    Step-IsSound {s} (file_removed path e idle) h =
        IsSound-replay w m n s (w.fs.remove s.disk path) s.round none h
    Step-IsSound {s} (round_ended idle left) h = IsSound-replay w m n s s.disk none s.leaving h
    Step-IsSound {s} (retry_stopped idle closed) h =
        IsSound-loops w m n s s.consuming s.flushing_metrics s.flushing_logs false h h.consumer
          h.metrics_loop h.logs_loop (let loop = h.retry_loop in ground arith)
    Step-IsSound {s} (advanced t e) h = rw e at (advance-IsFine w m n s.stage s refl h)
    Step-IsSound {s} (advance_panicked e) h = IsSound-crashed w m n s h

    -- Whatever the goroutines, the connections and the disk do, in any order.
    pub Trace-IsSound :
        {s t : Process w.fs} {out : Sent} → Trace w s out t → IsSound w m n s → IsSound w m n t
    Trace-IsSound here h = h
    Trace-IsSound (next trace alive step_) h = Step-IsSound step_ (Trace-IsSound trace h)
