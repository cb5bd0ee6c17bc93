-- ===== src/Main/Process.antt =====
-- main.go after the start: the goroutines, the channels that end them, and the statements of the
-- shutdown. A step is one of them going on by what it does under a lock: the append of Submit and
-- the flush after it are two, and other goroutines go on in between. A request is taken whole, as is a
-- flush: the order of what is sent is that in which the batches are taken.
pub mod Invariant
pub mod Advance
pub mod Covered
pub mod Sound
pub mod Starts
pub mod Run
pub mod Spool
pub mod Shutdown
pub mod Ended
pub mod Perform
pub mod Consume
pub mod Drain
pub mod Delivery
use ome_kafka_bridge.Common.{
  ℕ, ◌≤◌, ◌≡◌, Bool, true, false, Option, none, some, List, [], ◌∷◌, ◌++◌, Bytes, length, sub,
  is_some,
}
use ome_kafka_bridge.Labels.{Labels}
use ome_kafka_bridge.Broker.Outcome.{Outcome, done, panic, bind, close_channel}
use ome_kafka_bridge.Broker.State
use ome_kafka_bridge.Broker.State.{Broker, Message}
use ome_kafka_bridge.Broker.Request.{handle_request}
use ome_kafka_bridge.Broker.Request.Conn.{max_request}
use ome_kafka_bridge.Parser.Model.{Time}
use ome_kafka_bridge.Parser.Values.{Platform}
use ome_kafka_bridge.Cache
use ome_kafka_bridge.Cache.{Cache, CachedEntry, Retry, entries_of, replay_path}
use ome_kafka_bridge.Cache.Files.{FileSystem}
use ome_kafka_bridge.Main.{Pipeline, Sent, nothing, both}
use ome_kafka_bridge.Main.Events.{Event, metrics_tick, log_tick, step}
use ome_kafka_bridge.Main.Tasks.{Task, perform, afterwards, take_message, retry_tasks}
use ome_kafka_bridge.Main.Start.{Running}

-- The statement that main is at. It serves until a signal comes, and `crashed` is a panic.
pub data Stage : Type 0 where
  serving closing_broker closing_metrics closing_logs closing_cache stopping_api : Stage
  returned crashed : Stage

-- The process ends with main, whatever its goroutines are at.
unfoldable pub is_alive : Stage → Bool
is_alive serving = true
is_alive closing_broker = true
is_alive closing_metrics = true
is_alive closing_logs = true
is_alive closing_cache = true
is_alive stopping_api = true
is_alive returned = false
is_alive crashed = false

-- `consuming`, `flushing_metrics`, `flushing_logs` and `retrying` say which loops have not returned.
-- `consumer_todo` and `retry_todo` are what the pipeline and the retry loop have still to do for their
-- message or file. `round` is the replay under way, with its cutoff and the files that it has not come
-- to, and `leaving` the file that it removes after the callback.
pub record Process (fs : FileSystem) : Type 0 where
  pub broker : Broker
  pub disk : fs.Disk
  pub cache : Option Cache
  pub pipeline : Pipeline
  pub stage : Stage
  pub listening : Bool
  pub cancelled : Bool
  pub metrics_closed : Bool
  pub logs_closed : Bool
  pub cache_closed : Bool
  pub consuming : Bool
  pub flushing_metrics : Bool
  pub flushing_logs : Bool
  pub retrying : Bool
  pub consumer_todo : List Task
  pub retry_todo : List Task
  pub round : Option (Time × List Bytes)
  pub leaving : Option Bytes

unfoldable pub initial : (fs : FileSystem) → Running fs → Process fs
initial fs r = record {
  broker = r.broker;
  disk = r.disk;
  cache = r.cache;
  pipeline = r.pipeline;
  stage = serving;
  listening = true;
  cancelled = false;
  metrics_closed = false;
  logs_closed = false;
  cache_closed = false;
  consuming = true;
  flushing_metrics = true;
  flushing_logs = true;
  retrying = is_some r.cache;
  consumer_todo = [];
  retry_todo = [];
  round = none;
  leaving = none;
}

module _ (fs : FileSystem) where
  unfoldable pub close_broker : Process fs → Outcome (Process fs)
  unfolding State.close
  close_broker s =
      bind (State.close s.broker) (λ b. done (record s { broker = b; listening = false }))

  unfoldable pub close_metrics : Process fs → Outcome (Process fs)
  unfolding close_channel
  close_metrics s =
      bind (close_channel s.metrics_closed) (λ closed. done (record s { metrics_closed = closed }))

  unfoldable pub close_logs : Process fs → Outcome (Process fs)
  unfolding close_channel
  close_logs s =
      bind (close_channel s.logs_closed) (λ closed. done (record s { logs_closed = closed }))

  unfoldable pub close_cache : Process fs → Outcome (Process fs)
  unfolding Cache.close
  close_cache s =
      bind (Cache.close s.cache s.cache_closed)
        (λ closed. done (record s { cache_closed = closed }))

  abbrev at : Stage → Process fs → Outcome (Process fs)
  at stage s = done (record s { stage = stage })

  -- The next statement of main: a signal is received and the context cancelled, and so on.
  unfoldable pub advance : Stage → Process fs → Outcome (Process fs)
  unfolding close_broker close_metrics close_logs close_cache
  advance serving s = at closing_broker (record s { cancelled = true })
  advance closing_broker s = bind (close_broker s) (at closing_metrics)
  advance closing_metrics s = bind (close_metrics s) (at closing_logs)
  advance closing_logs s = bind (close_logs s) (at closing_cache)
  advance closing_cache s = bind (close_cache s) (at stopping_api)
  advance stopping_api s = at returned s
  advance returned s = done s
  advance crashed s = done s

-- What the process runs on: the parameters of the cache, of the forwarders and of the parser.
pub record World : Type 1 where
  pub fs : FileSystem
  pub marshal : CachedEntry → Option Bytes
  pub unmarshal : Bytes → Option CachedEntry
  pub range : Labels → List Bytes
  pub order : Labels → Labels
  pub compress : Bytes → Bytes
  pub platform : Platform

module _ (w : World) where
  abbrev pub happens : Event → Pipeline → Pipeline × Sent
  happens e p = step w.range w.order w.compress w.platform e p

  abbrev pub takes : Message → Pipeline → Pipeline × List Task
  takes m p = take_message w.range w.order w.compress w.platform m p

  abbrev pub does : Task → Pipeline → Pipeline × Sent
  does t p = perform w.range w.order w.compress t p

  abbrev pub goes_on : Task → Pipeline → List Task
  goes_on t p = afterwards w.range w.order w.compress t p

  abbrev pub replays : Cache → Time → Bytes → w.fs.Disk → w.fs.Disk × Option Retry
  replays c cutoff path d = replay_path w.fs w.marshal w.unmarshal c cutoff path d

  -- The retry loop comes to a file: it is done with it, or calls back and removes it afterwards.
  unfoldable pub come_to :
      Process w.fs → Bytes → w.fs.Disk × Option Retry → Time × List Bytes → Process w.fs
  come_to s path (d, none) round = record s { disk = d; round = some round }
  come_to s path (d, some r) round = record s {
    retry_todo = retry_tasks r;
    leaving = some path;
    round = some round;
  }

  -- A step, and what is sent by it. A connection gives a request to the broker, or the handler
  -- panics; the pipeline takes a message, submits what is in it, or leaves once the context is
  -- cancelled; a flush loop flushes at a tick, and once more when it is stopped; the retry loop begins
  -- a round at a tick, goes through its files, submits what is in one and removes it, and ends the
  -- round there or at the deadline; main goes on.
  pub data Step (s : Process w.fs) : Sent → Process w.fs → Type 0 where
    served :
        (order : List Bytes → List Bytes) (body : Bytes) (response : Option Bytes) (b : Broker)
        → length body ≤ max_request
        → handle_request order s.broker body ≡ done (response, b)
        → Step s nothing (record s { broker = b })
    request_panicked :
        (order : List Bytes → List Bytes) (body : Bytes)
        → length body ≤ max_request
        → handle_request order s.broker body ≡ panic
        → Step s nothing (record s { stage = crashed })
    consumed :
        (m : Message) (rest : List Message)
        → s.consuming ≡ true
        → s.consumer_todo ≡ []
        → s.broker.msg_ch ≡ m ∷ rest
        → Step s nothing (record s {
          broker = record s.broker { msg_ch = rest };
          pipeline = (takes m s.pipeline).0;
          consumer_todo = (takes m s.pipeline).1;
        })
    consumer_performed :
        (t : Task) (rest : List Task)
        → s.consumer_todo ≡ t ∷ rest
        → Step s (does t s.pipeline).1 (record s {
          pipeline = (does t s.pipeline).0;
          consumer_todo = goes_on t s.pipeline ++ rest;
        })
    pipeline_left :
        s.cancelled ≡ true → s.consumer_todo ≡ [] → Step s nothing (record s { consuming = false })
    metrics_flushed :
        s.flushing_metrics ≡ true
        → Step s
            (happens metrics_tick s.pipeline).1
            (record s { pipeline = (happens metrics_tick s.pipeline).0 })
    metrics_stopped :
        s.flushing_metrics ≡ true
        → s.metrics_closed ≡ true
        → Step s
            (happens metrics_tick s.pipeline).1
            (record s { pipeline = (happens metrics_tick s.pipeline).0; flushing_metrics = false })
    logs_flushed :
        s.flushing_logs ≡ true
        → Step s
            (happens log_tick s.pipeline).1
            (record s { pipeline = (happens log_tick s.pipeline).0 })
    logs_stopped :
        s.flushing_logs ≡ true
        → s.logs_closed ≡ true
        → Step s
            (happens log_tick s.pipeline).1
            (record s { pipeline = (happens log_tick s.pipeline).0; flushing_logs = false })
    round_began :
        (c : Cache) (now : Time)
        → s.cache ≡ some c
        → s.retrying ≡ true
        → s.round ≡ none
        → s.leaving ≡ none
        → Step s nothing (record s {
          round = some (sub now c.cfg.max_age, entries_of w.fs w.marshal w.unmarshal c s.disk);
        })
    replayed :
        (c : Cache) (cutoff : Time) (path : Bytes) (paths : List Bytes)
        → s.cache ≡ some c
        → s.round ≡ some (cutoff, path ∷ paths)
        → s.retry_todo ≡ []
        → s.leaving ≡ none
        → Step s nothing (come_to s path (replays c cutoff path s.disk) (cutoff, paths))
    retry_performed :
        (t : Task) (rest : List Task)
        → s.retry_todo ≡ t ∷ rest
        → Step s (does t s.pipeline).1 (record s {
          pipeline = (does t s.pipeline).0;
          retry_todo = goes_on t s.pipeline ++ rest;
        })
    file_removed :
        (path : Bytes)
        → s.leaving ≡ some path
        → s.retry_todo ≡ []
        → Step s nothing (record s { disk = w.fs.remove s.disk path; leaving = none })
    round_ended : s.retry_todo ≡ [] → s.leaving ≡ none → Step s nothing (record s { round = none })
    retry_stopped :
        s.round ≡ none → s.cache_closed ≡ true → Step s nothing (record s { retrying = false })
    advanced : (t : Process w.fs) → advance w.fs s.stage s ≡ done t → Step s nothing t
    advance_panicked :
        advance w.fs s.stage s ≡ panic → Step s nothing (record s { stage = crashed })

  -- The steps of a process as long as it is alive, and what is sent on the way.
  pub data Trace (s : Process w.fs) : Sent → Process w.fs → Type 0 where
    here : Trace s nothing s
    next :
        {t u : Process w.fs} {sent last : Sent}
        → Trace s sent t
        → is_alive t.stage ≡ true
        → Step t last u
        → Trace s (both sent last) u
