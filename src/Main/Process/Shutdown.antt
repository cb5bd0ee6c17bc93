-- ===== src/Main/Process/Shutdown.antt =====
-- The shutdown: what main leaves behind, and what it could wait for.
use ome_kafka_bridge.Common.{ℕ, ◌≡◌, ◌∙◌, subst, refl, ap, arith, Bool, true, List}
use ome_kafka_bridge.Broker.Outcome.{Outcome, done, panic, stuck, close_channel}
use ome_kafka_bridge.Broker.State
use ome_kafka_bridge.Broker.State.{Message}
use ome_kafka_bridge.Cache
use ome_kafka_bridge.Main.{Pipeline, Sent, nothing}
use ome_kafka_bridge.Main.Tasks.{Task}
use ome_kafka_bridge.Main.Process.{
  Stage, serving, closing_broker, closing_metrics, closing_logs, closing_cache, stopping_api,
  returned, crashed, is_alive, Process, close_broker, close_metrics, close_logs, close_cache,
  advance, World, Trace, advanced, here, next,
}
use ome_kafka_bridge.Main.Process.Invariant.{IsSound}
use ome_kafka_bridge.Main.Process.Advance.{IsFine, advance-IsFine}
use ome_kafka_bridge.Main.Process.Run.{both-nothing}

-- The statement after this one.
abbrev pub following : Stage → Stage
following serving = closing_broker
following closing_broker = closing_metrics
following closing_metrics = closing_logs
following closing_logs = closing_cache
following closing_cache = stopping_api
following stopping_api = returned
following returned = returned
following crashed = crashed

module _ (w : World) where
  -- What the drain of a process looks at.
  pub record View : Type 0 where
    pub stage : Stage
    pub channel : List Message
    pub todo : List Task
    pub pipeline : Pipeline
    pub consuming : Bool
    pub flushing_metrics : Bool
    pub flushing_logs : Bool

  abbrev pub view : Process w.fs → View
  view s = record {
    stage = s.stage;
    channel = s.broker.msg_ch;
    todo = s.consumer_todo;
    pipeline = s.pipeline;
    consuming = s.consuming;
    flushing_metrics = s.flushing_metrics;
    flushing_logs = s.flushing_logs;
  }

  abbrev pub IsNext : Stage → Process w.fs → Outcome (Process w.fs) → Type 0
  IsNext stage s (done t) = view t ≡ record (view s) { stage = following stage }
  IsNext stage s panic = Unit {0}
  IsNext stage s stuck = Unit {0}

  pub advance-IsNext :
      (stage : Stage) (s : Process w.fs) → s.stage ≡ stage → IsNext stage s (advance w.fs stage s)
  unfolding advance close_broker close_metrics close_logs close_cache State.close Cache.close
      close_channel
  advance-IsNext serving s h = refl
  advance-IsNext closing_broker s h = ground arith
  advance-IsNext closing_metrics s h = ground arith
  advance-IsNext closing_logs s h = ground arith
  advance-IsNext closing_cache s h = ground arith
  advance-IsNext stopping_api s h = refl
  advance-IsNext returned s h = λ i. record (view s) { stage = h i }
  advance-IsNext crashed s h = λ i. record (view s) { stage = h i }

  module _ (m n : ℕ) (s : Process w.fs) where
    -- A process that `s` can become, after sending `out`, and what it looks like.
    pub record Reaches (out : Sent) (v : View) : Type 0 where
      pub process : Process w.fs
      pub trace : Trace w s out process
      pub sound : IsSound w m n process
      pub looks : view process ≡ v

    go_to :
        {out : Sent} {v : View} (r : Reaches out v) (o : Outcome (Process w.fs))
        → is_alive v.stage ≡ true
        → advance w.fs r.process.stage r.process ≡ o
        → IsFine w m n o
        → IsNext r.process.stage r.process o
        → Reaches out (record v { stage = following v.stage })
    go_to {out} r (done t) alive e sound next_ = record {
      process = t;
      trace =
          subst (λ (x : Sent). Trace w s x t) (both-nothing out)
            (next r.trace (ap (λ (x : View). is_alive x.stage) r.looks ∙ alive) (advanced t e));
      sound = sound;
      looks = next_ ∙ ap (λ (x : View). record x { stage = following x.stage }) r.looks;
    }
    go_to r panic alive e sound quiet = absurd sound
    go_to r stuck alive e sound quiet = absurd sound

    -- Main goes on to its next statement.
    pub go_on :
        {out : Sent} {v : View}
        → is_alive v.stage ≡ true
        → Reaches out v
        → Reaches out (record v { stage = following v.stage })
    go_on alive r =
        go_to r (advance w.fs r.process.stage r.process) alive refl
          (advance-IsFine w m n r.process.stage r.process refl r.sound)
          (advance-IsNext r.process.stage r.process refl)

    abbrev pub start_here : IsSound w m n s → Reaches nothing (view s)
    start_here sound = record { process = s; trace = here; sound = sound; looks = refl }

    abbrev pub looks_at : Stage → View
    looks_at stage = record (view s) { stage = stage }

    -- Main does not wait for its goroutines: from every process that serves and satisfies
    -- the invariant, the shutdown can end with every message still in the channel, every sample and
    -- entry still pending, no loop further than it was, and nothing sent.
    pub shutdown-loses : IsSound w m n s → s.stage ≡ serving → Reaches nothing (looks_at returned)
    unfolding is_alive
    shutdown-loses sound at_ =
        let began : Reaches nothing (looks_at serving) =
          subst (λ (x : Stage). Reaches nothing (looks_at x)) at_ (start_here sound) in
        go_on refl (go_on refl (go_on refl (go_on refl (go_on refl (go_on refl began)))))
