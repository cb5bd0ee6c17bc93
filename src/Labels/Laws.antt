-- ===== src/Labels/Laws.antt =====
-- What the operations of a map do to each name.
use ome_kafka_bridge.Common.{
  ◌≡◌, refl, arith, if◌then◌else◌, Option, none, some, [], ◌∷◌, Bytes, str_eq, str_eq_iff,
}
use ome_kafka_bridge.Labels.{Labels, lookup, set, delete, merge}

pub lookup-set :
    (labels : Labels) (k v n : Bytes)
    → lookup (set labels k v) n ≡ (if str_eq k n then some v else lookup labels n)
unfolding lookup set
lookup-set [] k v n = refl
lookup-set ((m, w) ∷ labels) k v n =
    ground (arith, lookup-set labels k v n, str_eq_iff m k, str_eq_iff m n, str_eq_iff k n)

pub lookup-delete :
    (labels : Labels) (k n : Bytes)
    → lookup (delete labels k) n ≡ (if str_eq k n then none else lookup labels n)
unfolding lookup delete
lookup-delete [] k n = ground arith
lookup-delete ((m, v) ∷ labels) k n =
    ground (arith, lookup-delete labels k n, str_eq_iff m k, str_eq_iff m n, str_eq_iff k n)

-- The first that is there.
abbrev pub or_else : Option Bytes → Option Bytes → Option Bytes
or_else none o = o
or_else (some v) o = some v

-- Each name once.
abbrev pub HasNoDuplicates : Labels → Type 0
HasNoDuplicates [] = Unit {0}
HasNoDuplicates ((k, v) ∷ labels) = (lookup labels k ≡ none) × HasNoDuplicates labels

pub lookup-merge :
    (src dst : Labels) (n : Bytes)
    → HasNoDuplicates src
    → lookup (merge dst src) n ≡ or_else (lookup src n) (lookup dst n)
unfolding lookup merge
lookup-merge [] dst n h = refl
lookup-merge ((k, v) ∷ src) dst n (fresh, h) =
    ground (arith, lookup-merge src (set dst k v) n h, lookup-set dst k v n, str_eq_iff k n)

set-HasNoDuplicates :
    (labels : Labels) (k v : Bytes) → HasNoDuplicates labels → HasNoDuplicates (set labels k v)
unfolding set lookup
set-HasNoDuplicates [] k v h = (refl, tt)
set-HasNoDuplicates ((n, w) ∷ labels) k v (fresh, h) = ground (
  arith,
  set-HasNoDuplicates labels k v h,
  lookup-set labels k v n,
  str_eq_iff n k,
  str_eq_iff k n,
)

pub merge-HasNoDuplicates :
    (src dst : Labels) → HasNoDuplicates dst → HasNoDuplicates (merge dst src)
unfolding merge
merge-HasNoDuplicates [] dst h = h
merge-HasNoDuplicates ((k, v) ∷ src) dst h =
    merge-HasNoDuplicates src (set dst k v) (set-HasNoDuplicates dst k v h)
