-- ===== src/Main/Process/Run.antt =====
-- Events of the pipeline one after another, and what is sent.
use ome_kafka_bridge.Common.{◌≡◌, ◌∙◌, sym, refl, ap, List, [], ◌∷◌, ◌++◌, append_assoc, append-nil}
use ome_kafka_bridge.Main.{Pipeline, Sent, nothing, both}
use ome_kafka_bridge.Main.Events.{Event, run_events}
use ome_kafka_bridge.Main.Process.{World, happens}

pub both_assoc : (s t u : Sent) → both (both s t) u ≡ both s (both t u)
both_assoc s t u = λ i. record {
  bodies = append_assoc s.bodies t.bodies u.bodies i;
  batches = append_assoc s.batches t.batches u.batches i;
}

pub both-nothing : (s : Sent) → both s nothing ≡ s
both-nothing s = λ i. record { bodies = append-nil s.bodies i; batches = append-nil s.batches i }

module _ (w : World) where
  abbrev pub run : List Event → Pipeline → Pipeline × Sent
  run events p = run_events w.range w.order w.compress w.platform events p

  pub run-append :
      (es es' : List Event) (p : Pipeline)
      → run (es ++ es') p ≡ ((run es' (run es p).0).0, both (run es p).1 (run es' (run es p).0).1)
  unfolding run_events
  run-append [] es' p = refl
  run-append (e ∷ es) es' p =
      let (p', first) : Pipeline × Sent = happens w e p in
      ap (λ (r : Pipeline × Sent). (r.0, both first r.1)) (run-append es es' p')
      ∙ ap (λ (o : Sent). ((run es' (run es p').0).0, o)) (sym (both_assoc first (run es p').1 _))
