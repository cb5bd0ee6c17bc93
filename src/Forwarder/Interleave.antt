-- ===== src/Forwarder/Interleave.antt =====
-- What is pending and what has been taken, when any number of goroutines submit and flush. Submit
-- appends under the lock and flushes afterwards, and a flush takes the batch under the lock, so a run
-- is a sequence of these two actions in any order.
pub mod Metrics
pub mod Logs
use ome_kafka_bridge.Common.{◌≡◌, refl, List, [], ◌∷◌, ◌++◌, append_assoc, append-nil, concat}

pub data Action {ℓ} (A : Type ℓ) : Type ℓ where
  append : List A → Action A
  take : Action A

module _ {ℓ} {A : Type ℓ} where
  -- The items that the actions append.
  abbrev pub appended : List (Action A) → List A
  appended [] = []
  appended (append xs ∷ actions) = xs ++ appended actions
  appended (take ∷ actions) = appended actions

  -- What is pending after the actions, and the batches that they take, in order.
  unfoldable pub run : List A → List (Action A) → List A × List (List A)
  run pending [] = (pending, [])
  run pending (append xs ∷ actions) = run (pending ++ xs) actions
  run pending (take ∷ actions) =
      let (pending', batches) = run [] actions in (pending', pending ∷ batches)

  -- Nothing is lost, sent twice or reordered: the batches and what is still pending are what was
  -- pending and what was appended.
  pub concat-run :
      (pending : List A) (actions : List (Action A))
      → concat (run pending actions).1 ++ (run pending actions).0 ≡ pending ++ appended actions
  unfolding run
  concat-run pending [] = rw append-nil refl
  concat-run pending (append xs ∷ actions) =
      rw (concat-run (pending ++ xs) actions) (append_assoc pending xs (appended actions))
  concat-run pending (take ∷ actions) = rw (append_assoc, concat-run [] actions) refl
