-- ===== src/Main/Process/Spool.antt =====
-- What a process does to the disk.
use ome_kafka_bridge.Common.{
  ◌≡◌, ◌∙◌, sym, refl, ap, arith, Option, none, some, List, [], ◌∷◌, ◌++◌, Bytes,
}
use ome_kafka_bridge.Broker.Outcome.{Outcome, done, panic, stuck, close_channel}
use ome_kafka_bridge.Broker.State
use ome_kafka_bridge.Parser.Model.{Time}
use ome_kafka_bridge.Cache
use ome_kafka_bridge.Cache.{Cache, CachedEntry, Retry, replay_path, replay_entry}
use ome_kafka_bridge.Cache.Files.{FileSystem, remove_all}
use ome_kafka_bridge.Main.{Sent}
use ome_kafka_bridge.Main.Process.{
  Stage, serving, closing_broker, closing_metrics, closing_logs, closing_cache, stopping_api,
  returned, crashed, Process, close_broker, close_metrics, close_logs, close_cache, advance, World,
  come_to, Step, Trace, served, request_panicked, consumed, consumer_performed, pipeline_left,
  metrics_flushed, metrics_stopped, logs_flushed, logs_stopped, round_began, replayed,
  retry_performed, file_removed, round_ended, retry_stopped, advanced, advance_panicked, here, next,
}

module _ (fs : FileSystem) where
  remove_all-append :
      (d : fs.Disk) (paths more : List Bytes)
      → remove_all fs d (paths ++ more) ≡ remove_all fs (remove_all fs d paths) more
  remove_all-append d [] more = refl
  remove_all-append d (path ∷ paths) more = remove_all-append (fs.remove d path) paths more

  -- The second disk is the first without some files.
  pub record IsThinned (d d' : fs.Disk) : Type 0 where
    pub paths : List Bytes
    pub result : d' ≡ remove_all fs d paths

  IsThinned-refl : (d : fs.Disk) → IsThinned d d
  IsThinned-refl d = record { paths = []; result = refl }

  IsThinned-remove : (d : fs.Disk) (path : Bytes) → IsThinned d (fs.remove d path)
  IsThinned-remove d path = record { paths = path ∷ []; result = refl }

  IsThinned-trans : (d d' d'' : fs.Disk) → IsThinned d d' → IsThinned d' d'' → IsThinned d d''
  IsThinned-trans d d' d'' h k = record {
    paths = h.paths ++ k.paths;
    result =
        k.result
        ∙ ap (λ x. remove_all fs x k.paths) h.result
        ∙ sym (remove_all-append d h.paths k.paths);
  }

  module _ (marshal : CachedEntry → Option Bytes) (unmarshal : Bytes → Option CachedEntry) where
    replay_path-IsThinned :
        (c : Cache) (cutoff : Time) (path : Bytes) (d : fs.Disk)
        → IsThinned d (replay_path fs marshal unmarshal c cutoff path d).0
    unfolding replay_path replay_entry
    replay_path-IsThinned c cutoff path d =
        ground (arith, IsThinned-refl d, IsThinned-remove d path)

  -- A statement of main leaves the disk.
  abbrev KeepsDisk : Process fs → Outcome (Process fs) → Type 0
  KeepsDisk s (done t) = t.disk ≡ s.disk
  KeepsDisk s panic = Unit {0}
  KeepsDisk s stuck = Unit {0}

  advance-KeepsDisk : (stage : Stage) (s : Process fs) → KeepsDisk s (advance fs stage s)
  unfolding advance close_broker close_metrics close_logs close_cache State.close Cache.close
      close_channel
  advance-KeepsDisk serving s = refl
  advance-KeepsDisk closing_broker s = ground arith
  advance-KeepsDisk closing_metrics s = ground arith
  advance-KeepsDisk closing_logs s = ground arith
  advance-KeepsDisk closing_cache s = ground arith
  advance-KeepsDisk stopping_api s = refl
  advance-KeepsDisk returned s = refl
  advance-KeepsDisk crashed s = refl

module _ (w : World) where
  come_to-IsThinned :
      (s : Process w.fs) (path : Bytes) (came : w.fs.Disk × Option Retry)
      (round : Time × List Bytes)
      → IsThinned w.fs s.disk came.0
      → IsThinned w.fs s.disk (come_to w s path came round).disk
  unfolding come_to
  come_to-IsThinned s path (d, none) round h = h
  come_to-IsThinned s path (d, some r) round h = IsThinned-refl w.fs s.disk

  Step-IsThinned : {s t : Process w.fs} {out : Sent} → Step w s out t → IsThinned w.fs s.disk t.disk
  Step-IsThinned {s} (served order body response b short e) = IsThinned-refl w.fs s.disk
  Step-IsThinned {s} (request_panicked order body short e) = IsThinned-refl w.fs s.disk
  Step-IsThinned {s} (consumed m rest on idle e) = IsThinned-refl w.fs s.disk
  Step-IsThinned {s} (consumer_performed t rest e) = IsThinned-refl w.fs s.disk
  Step-IsThinned {s} (pipeline_left cancelled idle) = IsThinned-refl w.fs s.disk
  Step-IsThinned {s} (metrics_flushed on) = IsThinned-refl w.fs s.disk
  Step-IsThinned {s} (metrics_stopped on closed) = IsThinned-refl w.fs s.disk
  Step-IsThinned {s} (logs_flushed on) = IsThinned-refl w.fs s.disk
  Step-IsThinned {s} (logs_stopped on closed) = IsThinned-refl w.fs s.disk
  Step-IsThinned {s} (round_began c now on looping idle left) = IsThinned-refl w.fs s.disk
  Step-IsThinned {s} (replayed c cutoff path paths on under_way idle left) =
      come_to-IsThinned s path _ (cutoff, paths)
        (replay_path-IsThinned w.fs w.marshal w.unmarshal c cutoff path s.disk)
  Step-IsThinned {s} (retry_performed t rest e) = IsThinned-refl w.fs s.disk
  Step-IsThinned {s} (file_removed path e idle) = IsThinned-remove w.fs s.disk path
  Step-IsThinned {s} (round_ended idle left) = IsThinned-refl w.fs s.disk
  Step-IsThinned {s} (retry_stopped idle closed) = IsThinned-refl w.fs s.disk
  Step-IsThinned {s} (advanced t e) =
      let kept : t.disk ≡ s.disk = rw e at (advance-KeepsDisk w.fs s.stage s) in
      record { paths = []; result = kept }
  Step-IsThinned {s} (advance_panicked e) = IsThinned-refl w.fs s.disk

  -- Whatever is received, parsed, sent or not sent: a process never writes to the disk. All that it
  -- does to it is to remove files, so no batch that could not be sent is ever cached.
  pub Trace-IsThinned :
      {s t : Process w.fs} {out : Sent} → Trace w s out t → IsThinned w.fs s.disk t.disk
  Trace-IsThinned {s} here = IsThinned-refl w.fs s.disk
  Trace-IsThinned {s} (next {t} {u} trace alive step_) =
      IsThinned-trans w.fs s.disk t.disk u.disk (Trace-IsThinned trace) (Step-IsThinned step_)
