-- ===== src/Cache/Listed.antt =====
-- A file that is listed is one of those that a replay comes to.
use ome_kafka_bridge.Common.{
  ℕ, zero, suc, ◌≡◌, ◌≤◌, refl, arith, ap, Bool-cases, Option-cases, inl, inr, Option, some, List,
  [], ◌∷◌, Bytes, length, take, filter_map, text_leb, insert, sort, IsIn, here, there, codes,
}
use ome_kafka_bridge.Cache.{CachedEntry, Cache, list_entries, entries_of}
use ome_kafka_bridge.Cache.Files.{FileSystem}

pub IsIn-filter_map {ℓ κ} :
    {A : Type ℓ} {B : Type κ} (f : A → Option B) (x : A) (y : B) (xs : List A)
    → f x ≡ some y
    → IsIn x xs
    → IsIn y (filter_map f xs)
unfolding filter_map
IsIn-filter_map f x y [] e isin = elim isin [ ]
IsIn-filter_map f x y (x' ∷ xs) e here = rw (e, filter_map) here
IsIn-filter_map f x y (x' ∷ xs) e (there later) =
    let rest = IsIn-filter_map f x y xs e later in
    elim (Option-cases (f x')) [
      | inl skipped ↦ rw (skipped, filter_map) rest
      | inr (y', taken) ↦ rw (taken, filter_map) (there rest)
    ]

IsIn-insert_new : (x : Bytes) (xs : List Bytes) → IsIn x (insert x xs)
unfolding insert
IsIn-insert_new x [] = here
IsIn-insert_new x (y ∷ ys) = elim (Bool-cases (text_leb x y)) [
  | inl before ↦ rw (before, insert) here
  | inr behind ↦ rw (behind, insert) (there (IsIn-insert_new x ys))
]

IsIn-insert : (x y : Bytes) (ys : List Bytes) → IsIn x ys → IsIn x (insert y ys)
unfolding insert
IsIn-insert x y [] isin = elim isin [ ]
IsIn-insert x y (z ∷ zs) here = elim (Bool-cases (text_leb y x)) [
  | inl before ↦ rw (before, insert) (there here)
  | inr behind ↦ rw (behind, insert) here
]
IsIn-insert x y (z ∷ zs) (there later) =
    let rest = IsIn-insert x y zs later in
    elim (Bool-cases (text_leb y z)) [
      | inl before ↦ rw (before, insert) (there (there later))
      | inr behind ↦ rw (behind, insert) (there rest)
    ]

IsIn-sort : (x : Bytes) (xs : List Bytes) → IsIn x xs → IsIn x (sort xs)
unfolding sort
IsIn-sort x [] isin = elim isin [ ]
IsIn-sort x (y ∷ ys) here = IsIn-insert_new x (sort ys)
IsIn-sort x (y ∷ ys) (there later) = IsIn-insert x y (sort ys) (IsIn-sort x ys later)

take-long {ℓ} : {A : Type ℓ} (n : ℕ) (xs : List A) → length xs ≤ n → take n xs ≡ xs
take-long zero [] h = refl
take-long zero (x ∷ xs) h = absurd (omega arith)
take-long (suc n) [] h = refl
take-long (suc n) (x ∷ xs) h = ap (λ ys. x ∷ ys) (take-long n xs (omega arith))

module _ (fs : FileSystem) (marshal : CachedEntry → Option Bytes)
    (unmarshal : Bytes → Option CachedEntry) (c : Cache) where
  -- A file that the file system lists is an entry, and a replay with enough rounds comes to it.
  pub listed-IsIn :
      (rounds : ℕ) (d : fs.Disk) (files : List Bytes) (path : Bytes)
      → fs.glob d (fs.join c.cfg.dir (codes "*.json")) ≡ some files
      → IsIn path files
      → length (entries_of fs marshal unmarshal c d) ≤ rounds
      → IsIn path (take rounds (entries_of fs marshal unmarshal c d))
  unfolding entries_of list_entries
  listed-IsIn rounds d files path globbed isin enough =
      rw (take-long rounds (entries_of fs marshal unmarshal c d) enough)
        (rw (globbed, entries_of, list_entries) (IsIn-sort path files isin))
