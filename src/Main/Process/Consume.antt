-- ===== src/Main/Process/Consume.antt =====
-- The pipeline at work: a message is taken from the channel, and what is in it is submitted.
use ome_kafka_bridge.Common.{
  ℕ, ◌<◌, ◌≡◌, ◌∙◌, sym, subst, refl, ap, inl, inr, true, List, [], ◌∷◌, ◌++◌, map,
}
use ome_kafka_bridge.Broker.State.{Message}
use ome_kafka_bridge.Main.{Pipeline, Sent, both}
use ome_kafka_bridge.Main.Tasks.{Task}
use ome_kafka_bridge.Main.Events.{message, run_events}
use ome_kafka_bridge.Main.Process.{
  is_alive, Process, World, happens, takes, does, goes_on, Step, consumed, consumer_performed, next,
}
use ome_kafka_bridge.Main.Process.Sound.{Step-IsSound}
use ome_kafka_bridge.Main.Process.Run.{run, both_assoc, both-nothing}
use ome_kafka_bridge.Main.Process.Perform.{submits, submits-cases, submit_all, message-submit_all}
use ome_kafka_bridge.Main.Process.Shutdown.{View, view, Reaches}

module _ (w : World) (m n : ℕ) (positive_m : 0 < m) (positive_n : 0 < n) (s : Process w.fs) where
  abbrev pub Comes : Sent → View w → Type 0
  Comes out v = Reaches w m n s out v

  pub reach_next :
      {out last : Sent} {v v' : View w} (r : Comes out v) (t : Process w.fs)
      → is_alive v.stage ≡ true
      → Step w r.process last t
      → view w t ≡ v'
      → Comes (both out last) v'
  reach_next r t alive step_ looks = record {
    process = t;
    trace = next r.trace (ap (λ (x : View w). is_alive x.stage) r.looks ∙ alive) step_;
    sound = Step-IsSound w m n positive_m positive_n step_ r.sound;
    looks = looks;
  }

  -- The pipeline performs what it has to do next.
  reach_task :
      (out : Sent) (v : View w) (t : Task) (rest : List Task)
      → is_alive v.stage ≡ true
      → v.todo ≡ t ∷ rest
      → Comes out v
      → Comes
          (both out (does w t v.pipeline).1)
          (record v { pipeline = (does w t v.pipeline).0; todo = goes_on w t v.pipeline ++ rest })
  reach_task out v t rest alive todo r =
      let p_is : r.process.pipeline ≡ v.pipeline = ap (λ (x : View w). x.pipeline) r.looks in
      subst
        (λ (q : Pipeline).
          Comes (both out (does w t q).1)
            (record v { pipeline = (does w t q).0; todo = goes_on w t q ++ rest }))
        p_is
        (reach_next r _ alive
          (consumer_performed t rest (ap (λ (x : View w). x.todo) r.looks ∙ todo))
          (ap
            (λ (x : View w). record x {
              pipeline = (does w t r.process.pipeline).0;
              todo = goes_on w t r.process.pipeline ++ rest;
            })
            r.looks))

  -- A whole call of Submit, without other goroutines in between.
  reach_submits :
      (out : Sent) (v : View w) (t : Task) (rest : List Task)
      → is_alive v.stage ≡ true
      → v.todo ≡ t ∷ rest
      → Comes out v
      → Comes
          (both out (submits w t v.pipeline).1)
          (record v { pipeline = (submits w t v.pipeline).0; todo = rest })
  reach_submits out v t rest alive todo r =
      let (p', first) = does w t v.pipeline in
      elim (submits-cases w t v.pipeline) [
        | inl (ends, e) ↦ rw e (
            subst
              (λ (ts : List Task). Comes (both out first) (record v { pipeline = p'; todo = ts }))
              (ap (λ (ts : List Task). ts ++ rest) ends) (reach_task out v t rest alive todo r))
        | inr (f, goes, ends, e) ↦ rw e (
            subst (λ (x : Sent). Comes x (record v { pipeline = (does w f p').0; todo = rest }))
              (both_assoc out first (does w f p').1)
              (subst
                (λ (ts : List Task).
                  Comes (both (both out first) (does w f p').1)
                    (record v { pipeline = (does w f p').0; todo = ts }))
                (ap (λ (ts : List Task). ts ++ rest) ends)
                (reach_task (both out first)
                  (record v { pipeline = p'; todo = goes_on w t v.pipeline ++ rest }) f rest alive
                  (ap (λ (ts : List Task). ts ++ rest) goes)
                  (reach_task out v t rest alive todo r))))
      ]

  reach_submit_all :
      (ts : List Task) (out : Sent) (v : View w)
      → is_alive v.stage ≡ true
      → v.todo ≡ ts
      → Comes out v
      → Comes
          (both out (submit_all w ts v.pipeline).1)
          (record v { pipeline = (submit_all w ts v.pipeline).0; todo = [] })
  unfolding submit_all
  reach_submit_all [] out v alive todo r =
      subst (λ (x : Sent). Comes x (record v { todo = [] })) (sym (both-nothing out))
        (subst (λ (ts : List Task). Comes out (record v { todo = ts })) todo r)
  reach_submit_all (t ∷ ts) out v alive todo r =
      let (p', first) = submits w t v.pipeline in
      subst (λ (x : Sent). Comes x (record v { pipeline = (submit_all w ts p').0; todo = [] }))
        (both_assoc out first (submit_all w ts p').1)
        (reach_submit_all ts (both out first) (record v { pipeline = p'; todo = ts }) alive refl
          (reach_submits out v t ts alive todo r))

  abbrev taken : View w → Message → List Message → Pipeline → View w
  taken v msg ch p = record v {
    channel = ch;
    pipeline = (takes w msg p).0;
    todo = (takes w msg p).1;
  }

  -- A message is taken from the channel, and what is in it is submitted.
  reach_message :
      (out : Sent) (v : View w) (msg : Message) (ch : List Message)
      → is_alive v.stage ≡ true
      → v.consuming ≡ true
      → v.todo ≡ []
      → v.channel ≡ msg ∷ ch
      → Comes out v
      → Comes
          (both out (happens w (message msg) v.pipeline).1)
          (record v { channel = ch; pipeline = (happens w (message msg) v.pipeline).0; todo = [] })
  reach_message out v msg ch alive consuming todo channel r =
      let p_is : r.process.pipeline ≡ v.pipeline = ap (λ (x : View w). x.pipeline) r.looks in
      let r' : Comes out (taken v msg ch v.pipeline) =
        subst (λ (q : Pipeline). Comes out (taken v msg ch q)) p_is
          (subst (λ (x : Sent). Comes x (taken v msg ch r.process.pipeline)) (both-nothing out)
            (reach_next r _ alive
              (consumed msg ch (ap (λ (x : View w). x.consuming) r.looks ∙ consuming)
                (ap (λ (x : View w). x.todo) r.looks ∙ todo)
                (ap (λ (x : View w). x.channel) r.looks ∙ channel))
              (ap
                (λ (x : View w). record x {
                  channel = ch;
                  pipeline = (takes w msg r.process.pipeline).0;
                  todo = (takes w msg r.process.pipeline).1;
                })
                r.looks))) in
      subst
        (λ (x : Pipeline × Sent).
          Comes (both out x.1) (record v { channel = ch; pipeline = x.0; todo = [] }))
        (message-submit_all w msg v.pipeline)
        (reach_submit_all (takes w msg v.pipeline).1 out (taken v msg ch v.pipeline) alive refl r')

  pub take_all :
      (msgs : List Message) (out : Sent) (v : View w)
      → is_alive v.stage ≡ true
      → v.consuming ≡ true
      → v.todo ≡ []
      → v.channel ≡ msgs
      → Comes out v
      → Comes
          (both out (run w (map message msgs) v.pipeline).1)
          (record v { channel = []; pipeline = (run w (map message msgs) v.pipeline).0; todo = [] })
  unfolding run_events
  take_all [] out v alive consuming todo channel r =
      subst (λ (x : Sent). Comes x (record v { channel = []; todo = [] })) (sym (both-nothing out))
        (subst (λ (ts : List Task). Comes out (record v { channel = []; todo = ts })) todo
          (subst (λ (ms : List Message). Comes out (record v { channel = ms })) channel r))
  take_all (msg ∷ msgs) out v alive consuming todo channel r =
      let (p', first) = happens w (message msg) v.pipeline in
      subst
        (λ (x : Sent).
          Comes x
            (record v { channel = []; pipeline = (run w (map message msgs) p').0; todo = [] }))
        (both_assoc out first (run w (map message msgs) p').1)
        (take_all msgs (both out first) (record v { channel = msgs; pipeline = p'; todo = [] })
          alive consuming refl refl (reach_message out v msg msgs alive consuming todo channel r))
