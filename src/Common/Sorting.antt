-- ===== src/Common/Sorting.antt =====
-- The order of texts, and insertion into a sorted list.
use mathlib.Core.Path.{◌≡◌, refl}
use mathlib.Core.Bool.{true, ◌||◌}
use mathlib.Core.List.{List, [], ◌∷◌}
use native.Mathlib.Omega.{arith}
use ome_kafka_bridge.Common.Lists.{Bytes}
use ome_kafka_bridge.Common.Text.{str_eq, contains}
use ome_kafka_bridge.Common.Sort.{text_leb, insert, sort}

text_leb_total : (s t : Bytes) → (text_leb s t || text_leb t s) ≡ true
unfolding text_leb
text_leb_total [] t = refl
text_leb_total (a ∷ s) [] = refl
text_leb_total (a ∷ s) (b ∷ t) = ground (arith, text_leb_total s t)

text_leb_antisymm : (s t : Bytes) → text_leb s t ≡ true → text_leb t s ≡ true → s ≡ t
unfolding text_leb
text_leb_antisymm [] [] h k = refl
text_leb_antisymm [] (b ∷ t) h k = cc
text_leb_antisymm (a ∷ s) [] h k = cc
text_leb_antisymm (a ∷ s) (b ∷ t) h k = ground (arith, text_leb_antisymm s t)

text_leb_trans : (s t u : Bytes) → text_leb s t ≡ true → text_leb t u ≡ true → text_leb s u ≡ true
unfolding text_leb
text_leb_trans [] t u h k = refl
text_leb_trans (a ∷ s) [] u h k = cc
text_leb_trans (a ∷ s) (b ∷ t) [] h k = cc
text_leb_trans (a ∷ s) (b ∷ t) (c ∷ u) h k = ground (arith, text_leb_trans s t u)

pub insert_comm : (a b : Bytes) (xs : List Bytes) → insert a (insert b xs) ≡ insert b (insert a xs)
unfolding insert
insert_comm a b [] = ground (arith, text_leb_total a b, text_leb_antisymm a b)
insert_comm a b (x ∷ xs) = ground (
  arith,
  insert_comm a b xs,
  text_leb_total a b,
  text_leb_antisymm a b,
  text_leb_trans a b x,
  text_leb_trans b a x,
)

contains-insert :
    (x : Bytes) (xs : List Bytes) (k : Bytes)
    → contains (insert x xs) k ≡ (str_eq x k || contains xs k)
unfolding insert contains
contains-insert x [] k = refl
contains-insert x (y ∷ xs) k = ground (arith, contains-insert x xs k)

pub contains-sort : (xs : List Bytes) (k : Bytes) → contains (sort xs) k ≡ contains xs k
unfolding sort contains
contains-sort [] k = refl
contains-sort (x ∷ xs) k = ground (arith, contains-insert x (sort xs) k, contains-sort xs k)
