-- ===== src/Cache/Replay.antt =====
-- What a replay retries and what it removes.
use ome_kafka_bridge.Common.{
  ℕ, zero, suc, ◌≡◌, ◌≢◌, ◌∙◌, refl, arith, Bool, true, false, if◌then◌else◌, Bool-cases, inl, inr,
  Option, none, some, List, [], ◌∷◌, Bytes, take, All, less, sub, filter_map,
}
use ome_kafka_bridge.Parser.Model.{Time}
use ome_kafka_bridge.Cache.{
  CachedEntry, Cache, Retry, called, retry_of, entries_of, replay_entry, replay_path, replay_paths,
  replay_all,
}
use ome_kafka_bridge.Cache.Files.{FileSystem, KeepsOthers, remove_all}
use ome_kafka_bridge.Cache.Evict.{Distinct}

-- What becomes of a file: it stays, it is discarded, or its batch is retried and it goes.
pub data Verdict : Type 0 where
  stays discarded : Verdict
  retried : Retry → Verdict

abbrev pub goes : Verdict → Bool
goes stays = false
goes discarded = true
goes (retried r) = true

abbrev pub retry : Verdict → Option Retry
retry (retried r) = some r
retry _ = none

abbrev of_retry : Option Retry → Verdict
of_retry none = stays
of_retry (some r) = retried r

abbrev filter {ℓ} : {A : Type ℓ} → (A → Bool) → List A → List A
filter p [] = []
filter p (x ∷ xs) = let rest = filter p xs in if p x then x ∷ rest else rest

module _ (fs : FileSystem) (marshal : CachedEntry → Option Bytes)
    (unmarshal : Bytes → Option CachedEntry) (c : Cache) (cutoff : Time) where
  abbrev entry_verdict : Option CachedEntry → Verdict
  entry_verdict none = discarded
  entry_verdict (some entry) =
      if less entry.created_at cutoff
      then discarded
      else of_retry (retry_of fs marshal unmarshal c entry)

  abbrev data_verdict : Option Bytes → Verdict
  data_verdict none = stays
  data_verdict (some bytes) = entry_verdict (unmarshal bytes)

  -- A file that cannot be read stays; one that is no entry, or is older than the cutoff, is discarded;
  -- and the batch of any other is retried, if its kind has a callback and it is not empty.
  abbrev pub verdict : fs.Disk → Bytes → Verdict
  verdict d path = data_verdict (fs.read_file d path)

  replay_path-eq :
      (d : fs.Disk) (path : Bytes)
      → replay_path fs marshal unmarshal c cutoff path d
        ≡ (if goes (verdict d path) then fs.remove d path else d, retry (verdict d path))
  unfolding replay_path replay_entry
  replay_path-eq d path = ground arith

  -- The files that go and the batches that are retried, by what is on a disk.
  abbrev pub going : fs.Disk → List Bytes → List Bytes
  going d paths = filter (λ p. goes (verdict d p)) paths

  abbrev pub retries : fs.Disk → List Bytes → List Retry
  retries d paths = filter_map (λ p. retry (verdict d p)) paths

  same_refl :
      (d : fs.Disk) (paths : List Bytes) → All (λ q. fs.read_file d q ≡ fs.read_file d q) paths
  same_refl d [] = tt
  same_refl d (q ∷ paths) = (refl, same_refl d paths)

  abbrev SameFiles : fs.Disk → fs.Disk → List Bytes → Type 0
  SameFiles d d₀ paths = All (λ q. fs.read_file d q ≡ fs.read_file d₀ q) paths

  called-eq :
      (o : Option Retry) (rs : List Retry)
      → called fs marshal unmarshal o rs ≡ elim o [ none ↦ rs | some r ↦ r ∷ rs ]
  called-eq none rs = refl
  called-eq (some r) rs = refl

  module _ (others : KeepsOthers fs) where
    remove-SameFiles :
        (d d₀ : fs.Disk) (p : Bytes) (paths : List Bytes)
        → All (λ q. p ≢ q) paths
        → SameFiles d d₀ paths
        → SameFiles (fs.remove d p) d₀ paths
    remove-SameFiles d d₀ p [] other same = tt
    remove-SameFiles d d₀ p (q ∷ paths) (hq, other) (e, same) =
        (others.read_file-remove d p q hq ∙ e, remove-SameFiles d d₀ p paths other same)

    replay_paths-from :
        (rounds : ℕ) (d d₀ : fs.Disk) (paths : List Bytes)
        → Distinct paths
        → SameFiles d d₀ paths
        → replay_paths fs marshal unmarshal rounds c cutoff paths d
          ≡ (remove_all fs d (going d₀ (take rounds paths)), retries d₀ (take rounds paths))
    unfolding replay_paths filter_map
    replay_paths-from zero d d₀ paths distinct same = refl
    replay_paths-from (suc rounds) d d₀ [] distinct same = refl
    replay_paths-from (suc rounds) d d₀ (p ∷ paths) (other, distinct) (e, same) =
        rw (replay_path-eq d p, e)
          (elim (Bool-cases (goes (verdict d₀ p))) [
            | inl gone ↦
                rw
                  (
                    gone,
                    replay_paths-from rounds (fs.remove d p) d₀ paths distinct
                        (remove-SameFiles d d₀ p paths other same),
                  )
                  (λ i. (
                    remove_all fs (fs.remove d p) (going d₀ (take rounds paths)),
                    called-eq (retry (verdict d₀ p)) (retries d₀ (take rounds paths)) i,
                  ))
            | inr kept ↦
                rw (kept, replay_paths-from rounds d d₀ paths distinct same)
                  (λ i. (
                    remove_all fs d (going d₀ (take rounds paths)),
                    called-eq (retry (verdict d₀ p)) (retries d₀ (take rounds paths)) i,
                  ))
          ])

module _ (fs : FileSystem) (marshal : CachedEntry → Option Bytes)
    (unmarshal : Bytes → Option CachedEntry) where
  -- A replay that has time for a number of rounds looks at so many of the listed files, the first
  -- ones. What becomes of each depends on what was in it when the replay began: the files that go are
  -- removed, and the batches that are retried are handed over in the order of the files. The names in
  -- the list are distinct, and removing a file leaves the others as they are.
  pub replay_all-eq :
      (others : KeepsOthers fs) (rounds : ℕ) (c : Cache) (now : Time) (d : fs.Disk)
      → Distinct (entries_of fs marshal unmarshal c d)
      → replay_all fs marshal unmarshal rounds c now d ≡ (
          let cutoff = sub now c.cfg.max_age in
          let paths = take rounds (entries_of fs marshal unmarshal c d) in
          (
            remove_all fs d (going fs marshal unmarshal c cutoff d paths),
            retries fs marshal unmarshal c cutoff d paths,
          ))
  unfolding replay_all
  replay_all-eq others rounds c now d distinct =
      replay_paths-from fs marshal unmarshal c (sub now c.cfg.max_age) others rounds d d
        (entries_of fs marshal unmarshal c d) distinct
        (same_refl fs marshal unmarshal c (sub now c.cfg.max_age) d
          (entries_of fs marshal unmarshal c d))
