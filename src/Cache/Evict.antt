-- ===== src/Cache/Evict.antt =====
-- What the size limit removes.
use ome_kafka_bridge.Common.{
  ℕ, zero, suc, ◌≡◌, ◌≢◌, ◌⊎◌, inl, inr, ◌∙◌, refl, sym, ap, arith, true, false, Bool-cases, Option,
  List, [], ◌∷◌, Bytes, take, drop, All, ℤ, pos, minus, less,
}
use ome_kafka_bridge.Cache.{
  CachedEntry, Cache, max_bytes_of, size_of, total_size, entries_of, evict_loop, evict_if_needed,
}
use ome_kafka_bridge.Cache.Files.{FileSystem, KeepsOthers, remove_all}

abbrev pub Distinct : List Bytes → Type 0
Distinct [] = Unit {0}
Distinct (p ∷ paths) = All (λ q. p ≢ q) paths × Distinct paths

module _ (fs : FileSystem) (marshal : CachedEntry → Option Bytes)
    (unmarshal : Bytes → Option CachedEntry) where
  -- The size of what is left when the first k files are gone.
  abbrev pub size_after : fs.Disk → List Bytes → ℕ → ℤ
  size_after d entries k = pos (total_size fs marshal unmarshal d (drop k entries))

  -- The rest is too large when fewer files are gone.
  abbrev pub Over : ℤ → fs.Disk → List Bytes → ℕ → Type 0
  Over max d entries zero = Unit {0}
  Over max d entries (suc k) = Over max d entries k × (less max (size_after d entries k) ≡ true)

  -- The first files go until the rest is within the limit, and not one more.
  pub record Evicts (max : ℤ) (d : fs.Disk) (entries : List Bytes) (d' : fs.Disk) : Type 0 where
    pub gone : ℕ
    pub removed : d' ≡ remove_all fs d (take gone entries)
    pub within : (less max (size_after d entries gone) ≡ false) ⊎ (drop gone entries ≡ [])
    pub needed : Over max d entries gone

  module _ (others : KeepsOthers fs) where
    total_size-remove :
        (d : fs.Disk) (p : Bytes) (paths : List Bytes)
        → All (λ q. p ≢ q) paths
        → total_size fs marshal unmarshal (fs.remove d p) paths
          ≡ total_size fs marshal unmarshal d paths
    unfolding total_size
    total_size-remove d p [] h = refl
    total_size-remove d p (q ∷ paths) (hq, h) =
        rw (others.stat-remove d p q hq, total_size-remove d p paths h) refl

    size_after-remove :
        (d : fs.Disk) (p : Bytes) (paths : List Bytes) (k : ℕ)
        → All (λ q. p ≢ q) paths
        → size_after (fs.remove d p) paths k ≡ size_after d paths k
    unfolding total_size
    size_after-remove d p paths zero h = ap pos (total_size-remove d p paths h)
    size_after-remove d p [] (suc k) h = refl
    size_after-remove d p (q ∷ paths) (suc k) (hq, h) = size_after-remove d p paths k h

    Over-remove :
        (max : ℤ) (d : fs.Disk) (oldest : Bytes) (entries : List Bytes) (k : ℕ)
        → All (λ q. oldest ≢ q) entries
        → less max (size_after d (oldest ∷ entries) 0) ≡ true
        → Over max (fs.remove d oldest) entries k
        → Over max d (oldest ∷ entries) (suc k)
    Over-remove max d oldest entries zero other over h = (tt, over)
    Over-remove max d oldest entries (suc k) other over (h, last) = (
      Over-remove max d oldest entries k other over h,
      sym (ap (less max) (size_after-remove d oldest entries k other)) ∙ last,
    )

    evicted-Evicts :
        (max : ℤ) (d : fs.Disk) (oldest : Bytes) (entries : List Bytes) (d' : fs.Disk)
        → All (λ q. oldest ≢ q) entries
        → less max (size_after d (oldest ∷ entries) 0) ≡ true
        → Evicts max (fs.remove d oldest) entries d'
        → Evicts max d (oldest ∷ entries) d'
    evicted-Evicts max d oldest entries d' other over rest =
        let same : (k : ℕ) → size_after (fs.remove d oldest) entries k ≡ size_after d entries k =
          λ k. size_after-remove d oldest entries k other in
        record {
          gone = suc rest.gone;
          removed = rest.removed;
          within = (let left = rest.within in rw (same rest.gone) at left);
          needed = Over-remove max d oldest entries rest.gone other over rest.needed;
        }

    minus-size :
        (d : fs.Disk) (oldest : Bytes) (entries : List Bytes)
        → All (λ q. oldest ≢ q) entries
        → minus
            (pos (total_size fs marshal unmarshal d (oldest ∷ entries)))
            (size_of fs marshal unmarshal d oldest)
          ≡ pos (total_size fs marshal unmarshal (fs.remove d oldest) entries)
    unfolding total_size
    minus-size d oldest entries other = rw (total_size-remove d oldest entries other) (ground arith)

    evict_loop-Evicts :
        (max : ℤ) (d : fs.Disk) (entries : List Bytes)
        → Distinct entries
        → Evicts max d entries (
            evict_loop fs marshal unmarshal max
              (pos (total_size fs marshal unmarshal d entries))
              d
              entries)
    unfolding evict_loop
    evict_loop-Evicts max d [] h = record {
      gone = 0;
      removed = refl;
      within = inr refl;
      needed = tt;
    }
    evict_loop-Evicts max d (oldest ∷ entries) (other, h) =
        elim (Bool-cases (less max (pos (total_size fs marshal unmarshal d (oldest ∷ entries))))) [
          | inl over ↦
              rw (over, minus-size d oldest entries other)
                (evicted-Evicts max d oldest entries _ other over
                  (evict_loop-Evicts max (fs.remove d oldest) entries h))
          | inr fits ↦ rw fits (record { gone = 0; removed = refl; within = inl fits; needed = tt })
        ]

    -- Before a write, the files of the cache are removed from the front of their list, until those
    -- that are left have together at most the configured size or none is left; with one file less
    -- removed they would have more. The names in the list are distinct, and removing a file leaves the
    -- others as they are.
    pub evict_if_needed-Evicts :
        (c : Cache) (d : fs.Disk)
        → Distinct (entries_of fs marshal unmarshal c d)
        → Evicts
            (max_bytes_of c.cfg)
            d
            (entries_of fs marshal unmarshal c d)
            (evict_if_needed fs marshal unmarshal c d)
    unfolding evict_if_needed
    evict_if_needed-Evicts c d h =
        evict_loop-Evicts (max_bytes_of c.cfg) d (entries_of fs marshal unmarshal c d) h
