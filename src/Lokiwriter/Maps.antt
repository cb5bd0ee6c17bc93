-- ===== src/Lokiwriter/Maps.antt =====
-- The fingerprint of two lists that are the same map.
use ome_kafka_bridge.Common.{
  ◌≡◌, ◌∙◌, sym, refl, ap, arith, Option, none, some, List, [], ◌∷◌, map, Bytes, str_eq_iff,
  str_eq_refl, insert, sort, insert_comm,
}
use ome_kafka_bridge.Labels.{Labels, lookup, get, delete}
use ome_kafka_bridge.Labels.Laws.{HasNoDuplicates, lookup-delete}
use ome_kafka_bridge.Lokiwriter.{write_keys, fingerprint}

-- The two lists are the same map.
abbrev pub SameMap : Labels → Labels → Type 0
SameMap s t = (k : Bytes) → lookup s k ≡ lookup t k

abbrev pub keys : Labels → List Bytes
keys labels = map (λ (k, _). k) labels

abbrev or_empty : Option Bytes → Bytes
or_empty none = []
or_empty (some v) = v

pub get-lookup : (labels : Labels) (k : Bytes) → get labels k ≡ or_empty (lookup labels k)
unfolding get lookup
get-lookup [] k = refl
get-lookup ((n, v) ∷ labels) k = ground (arith, get-lookup labels k)

write_keys-SameMap :
    (s t : Labels) (ks : List Bytes) → SameMap s t → write_keys s ks ≡ write_keys t ks
unfolding write_keys
write_keys-SameMap s t [] h = refl
write_keys-SameMap s t (k ∷ ks) h =
    rw (get-lookup s k, get-lookup t k, h k, write_keys-SameMap s t ks h)

delete-absent : (t : Labels) (k : Bytes) → lookup t k ≡ none → delete t k ≡ t
unfolding delete lookup
delete-absent [] k h = refl
delete-absent ((n, w) ∷ t) k h = ground (arith, delete-absent t k)

delete-HasNoDuplicates : (t : Labels) (k : Bytes) → HasNoDuplicates t → HasNoDuplicates (delete t k)
unfolding delete lookup
delete-HasNoDuplicates [] k h = tt
delete-HasNoDuplicates ((n, w) ∷ t) k (fresh, h) =
    ground (arith, delete-HasNoDuplicates t k h, lookup-delete t k n)

-- A name of the map may be inserted last.
sort-delete :
    (t : Labels) (k v : Bytes)
    → HasNoDuplicates t
    → lookup t k ≡ some v
    → sort (keys t) ≡ insert k (sort (keys (delete t k)))
unfolding delete lookup sort
sort-delete [] k v h e = cc
sort-delete ((n, w) ∷ t) k v (fresh, h) e = ground (
  arith,
  sort-delete t k v h,
  str_eq_iff n k,
  delete-absent t n fresh,
  insert_comm n k (sort (keys (delete t k))),
)

sort-keys :
    (s t : Labels)
    → HasNoDuplicates s
    → HasNoDuplicates t
    → SameMap s t
    → sort (keys s) ≡ sort (keys t)
unfolding lookup sort
sort-keys [] [] hs ht h = refl
sort-keys [] ((n, w) ∷ t) hs ht h = let present : none ≡ some w = rw (str_eq_refl n) at (h n) in cc
sort-keys ((k, v) ∷ s) t (fresh, hs) ht h =
    let present : lookup t k ≡ some v = sym (rw (str_eq_refl k) at (h k)) in
    let others : SameMap s (delete t k) =
      (λ n. ground (arith, lookup-delete t k n, h n, str_eq_iff k n, fresh)) in
    ap (insert k) (sort-keys s (delete t k) hs (delete-HasNoDuplicates t k ht) others)
    ∙ sym (sort-delete t k v ht present)

pub fingerprint-SameMap :
    (s t : Labels)
    → HasNoDuplicates s
    → HasNoDuplicates t
    → SameMap s t
    → fingerprint s ≡ fingerprint t
unfolding fingerprint
fingerprint-SameMap s t hs ht h =
    rw (sort-keys s t hs ht h) (write_keys-SameMap s t (sort (keys t)) h)
