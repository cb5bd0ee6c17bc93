-- ===== src/Main/Process/Perform.antt =====
-- What the pipeline does with a message in pieces, if no other goroutine comes in between, is
-- process_message.
use ome_kafka_bridge.Common.{
  ◌≡◌, refl, ap, ◌&&◌, not, Bool-cases, Option-cases, inl, inr, Option, Bytes, none, some, ◌⊎◌,
  List, [], ◌∷◌, length, contains, is_empty,
}
use ome_kafka_bridge.Broker.State.{Message}
use ome_kafka_bridge.Parser.{parse}
use ome_kafka_bridge.Parser.Model.{LogEntry, kind_name, ParsedMessage}
use ome_kafka_bridge.Main.{
  Pipeline, Sent, nothing, both, submit_metrics, submit_log, route_metrics, route_log, route,
  process_message,
}
use ome_kafka_bridge.Main.Events.{message, step}
use ome_kafka_bridge.Main.Tasks.{
  Task, add_samples, add_entry, flush_samples, flush_entries, perform, route_tasks, entry_tasks,
  take_message, afterwards,
}
use ome_kafka_bridge.Forwarder.Metrics.{append_samples, submit, reaches}
use ome_kafka_bridge.Forwarder.Logs.{append_entry, submit_entry}
use ome_kafka_bridge.Main.Process.{World, happens, takes, does, goes_on}
use ome_kafka_bridge.Main.Process.Run.{both-nothing}

module _ (w : World) where
  -- A whole call of Submit, or a flush.
  abbrev pub submits : Task → Pipeline → Pipeline × Sent
  submits (add_samples samples) p = submit_metrics w.range w.order w.compress p samples
  submits (add_entry e) p = submit_log w.range w.order w.compress p e
  submits flush_samples p = does w flush_samples p
  submits flush_entries p = does w flush_entries p

  -- A call of Submit is its append, and the flush after it if there is one.
  pub submits-cases :
      (t : Task) (p : Pipeline)
      → ((goes_on w t p ≡ []) × (submits t p ≡ does w t p))
        ⊎ ((f : Task) × (goes_on w t p ≡ f ∷ [])
            × (goes_on w f (does w t p).0 ≡ [])
            × (submits t p
                ≡ ((does w f (does w t p).0).0, both (does w t p).1 (does w f (does w t p).0).1)))
  unfolding submit_metrics submit_log submit submit_entry perform afterwards
  submits-cases (add_samples samples) p =
      elim (Bool-cases (
        reaches p.metrics_fwd.cfg.batch_size
          (length (append_samples w.range w.order w.compress p.metrics_fwd samples).pending))) [
            | inl full ↦ inr (flush_samples, rw full refl, refl, rw full refl)
            | inr below ↦ inl (rw below refl, rw below refl)
          ]
  submits-cases (add_entry e) p =
      elim (Bool-cases
        (reaches p.log_fwd.cfg.batch_size (length (append_entry w.range p.log_fwd e).pending))) [
          | inl full ↦ inr (flush_entries, rw full refl, refl, rw full refl)
          | inr below ↦ inl (rw below refl, rw below refl)
        ]
  submits-cases flush_samples p = inl (refl, refl)
  submits-cases flush_entries p = inl (refl, refl)

  unfoldable pub submit_all : List Task → Pipeline → Pipeline × Sent
  submit_all [] p = (p, nothing)
  submit_all (t ∷ ts) p =
      let (p', first) = submits t p in let (p'', rest) = submit_all ts p' in (p'', both first rest)

  log-submit_all :
      (topic : Bytes) (entry : Option LogEntry) (p : Pipeline)
      → submit_all (entry_tasks w.range w.order w.compress (contains p.log_topics topic) entry) p
        ≡ route_log w.range w.order w.compress topic entry p
  unfolding submit_all entry_tasks route_log
  log-submit_all topic none p = refl
  log-submit_all topic (some e) p = elim (Bool-cases (contains p.log_topics topic)) [
    | inl routed ↦ rw routed (
        ap (λ (o : Sent). ((submit_log w.range w.order w.compress p e).0, o))
          (both-nothing (submit_log w.range w.order w.compress p e).1))
    | inr ignored ↦ rw ignored refl
  ]

  route-submit_all :
      (topic : Bytes) (parsed : ParsedMessage) (p : Pipeline)
      → submit_all
          (route_tasks w.range w.order w.compress topic parsed p)
          (record p { received = (topic, kind_name parsed.kind) ∷ p.received })
        ≡ route w.range w.order w.compress topic parsed p
  unfolding route route_tasks route_metrics submit_all submit_metrics
  route-submit_all topic parsed p =
      let p' = record p { received = (topic, kind_name parsed.kind) ∷ p.received } in
      elim (Bool-cases (contains p.metrics_topics topic && not (is_empty parsed.metrics))) [
        | inl routed ↦
            (let (p'', first) = submit_metrics w.range w.order w.compress p' parsed.metrics in
              rw routed (
                ap (λ (r : Pipeline × Sent). (r.0, both first r.1))
                  (log-submit_all topic parsed.log_entry p'')))
        | inr ignored ↦ rw ignored (log-submit_all topic parsed.log_entry p')
      ]

  -- The pieces of processMessage, one after another, are processMessage.
  pub message-submit_all :
      (msg : Message) (p : Pipeline)
      → submit_all (takes w msg p).1 (takes w msg p).0 ≡ happens w (message msg) p
  unfolding step take_message submit_all process_message
  message-submit_all msg p = elim (Option-cases (parse w.platform msg.topic msg.value)) [
    | inl bad ↦ rw (bad, take_message, process_message, submit_all) refl
    | inr (parsed, good) ↦
        rw (good, take_message, process_message) (route-submit_all msg.topic parsed p)
  ]
