-- ===== src/Lokiwriter/Injective.antt =====
-- Which label sets share a stream, if the separators do not occur in them.
use ome_kafka_bridge.Common.{
  ℕ, ◌≡◌, ◌∙◌, ◌↔◌, sym, refl, ap, arith, Bool, true, false, ◌==◌, ◌||◌, none, some, List, [], ◌∷◌,
  ◌++◌, Bytes, contains, str_eq_iff, insert, sort, contains-sort, if◌then◌else◌,
}
use ome_kafka_bridge.Labels.{Labels, lookup, get}
use ome_kafka_bridge.Labels.Laws.{HasNoDuplicates}
use ome_kafka_bridge.Lokiwriter.{write_keys, fingerprint}
use ome_kafka_bridge.Lokiwriter.Maps.{SameMap, keys, fingerprint-SameMap}

abbrev has : Bytes → ℕ → Bool
has [] c = false
has (b ∷ s) c = b == c || has s c

-- No name has an equals sign, and no value a comma.
abbrev pub IsPlain : Labels → Type 0
IsPlain [] = Unit {0}
IsPlain ((k, v) ∷ labels) = (has k 61 ≡ false) × (has v 44 ≡ false) × IsPlain labels

-- What stands before the first separator, and behind it.
split-eq :
    (c : ℕ) (a b x y : Bytes)
    → has a c ≡ false
    → has b c ≡ false
    → a ++ c ∷ x ≡ b ++ c ∷ y
    → (a ≡ b) × (x ≡ y)
split-eq c [] [] x y ha hb e = ground arith
split-eq c [] (n ∷ b) x y ha hb e = ground arith
split-eq c (m ∷ a) [] x y ha hb e = ground arith
split-eq c (m ∷ a) (n ∷ b) x y ha hb e = ground (arith, split-eq c a b x y)

-- No name of the list has an equals sign.
abbrev Named : List Bytes → Type 0
Named [] = Unit {0}
Named (k ∷ ks) = (has k 61 ≡ false) × Named ks

Named-insert : (k : Bytes) (ks : List Bytes) → has k 61 ≡ false → Named ks → Named (insert k ks)
unfolding insert
Named-insert k [] h hs = (h, hs)
Named-insert k (j ∷ ks) h (hj, hs) = ground (arith, Named-insert k ks h hs)

Named-sort : (labels : Labels) → IsPlain labels → Named (sort (keys labels))
unfolding sort
Named-sort [] h = tt
Named-sort ((k, v) ∷ labels) (hk, hv, h) = Named-insert k _ hk (Named-sort labels h)

get-plain : (labels : Labels) (k : Bytes) → IsPlain labels → has (get labels k) 44 ≡ false
unfolding get
get-plain [] k h = refl
get-plain ((n, v) ∷ labels) k (hk, hv, h) = ground (arith, get-plain labels k h)

-- The values of the listed names agree.
abbrev SameValues : Labels → Labels → List Bytes → Type 0
SameValues s t [] = Unit {0}
SameValues s t (k ∷ ks) = (get s k ≡ get t k) × SameValues s t ks

write_keys-inj :
    (s t : Labels) (ks ls : List Bytes)
    → IsPlain s
    → IsPlain t
    → Named ks
    → Named ls
    → write_keys s ks ≡ write_keys t ls
    → (ks ≡ ls) × SameValues s t ks
unfolding write_keys
write_keys-inj s t [] [] hs ht hk hl e = (refl, tt)
write_keys-inj s t [] ([] ∷ ls) hs ht hk hl e = cc
write_keys-inj s t [] ((c ∷ l) ∷ ls) hs ht hk hl e = cc
write_keys-inj s t ([] ∷ ks) [] hs ht hk hl e = cc
write_keys-inj s t ((c ∷ k) ∷ ks) [] hs ht hk hl e = cc
write_keys-inj s t (k ∷ ks) (l ∷ ls) hs ht (hk, hks) (hl, hls) e =
    let (same, rest) = split-eq 61 k l _ _ hk hl e in
    let (value, more) =
      split-eq 44 (get s k) (get t l) _ _ (get-plain s k hs) (get-plain t l ht) rest in
    let (others, values) = write_keys-inj s t ks ls hs ht hks hls more in
    ((λ i. same i ∷ others i), (value ∙ ap (get t) (sym same), values))

SameValues-contains :
    (s t : Labels) (ks : List Bytes) (k : Bytes)
    → SameValues s t ks
    → contains ks k ≡ true
    → get s k ≡ get t k
unfolding contains
SameValues-contains s t [] k h e = cc
SameValues-contains s t (j ∷ ks) k (same, h) e =
    ground (arith, SameValues-contains s t ks k h, str_eq_iff j k)

lookup-get :
    (labels : Labels) (k : Bytes)
    → lookup labels k ≡ (if contains (keys labels) k then some (get labels k) else none)
unfolding lookup get contains
lookup-get [] k = refl
lookup-get ((n, v) ∷ labels) k = ground (arith, lookup-get labels k)

SameMap-fingerprint :
    (s t : Labels) → IsPlain s → IsPlain t → fingerprint s ≡ fingerprint t → SameMap s t
unfolding fingerprint
SameMap-fingerprint s t hs ht e k =
    let (names, values) =
      write_keys-inj s t (sort (keys s)) (sort (keys t)) hs ht (Named-sort s hs) (Named-sort t ht)
        e in
    let same : contains (keys s) k ≡ contains (keys t) k =
      (sym (contains-sort (keys s) k)
        ∙ ap (λ ns. contains ns k) names
        ∙ contains-sort (keys t) k) in
    ground (
      arith,
      lookup-get s k,
      lookup-get t k,
      contains-sort (keys s) k,
      SameValues-contains s t (sort (keys s)) k values,
    )

-- Two label sets, each with every name once, no equals sign in a name and no comma in a value, have
-- the same fingerprint exactly if they are the same map: the order in which the labels are listed, as
-- Go ranges over them, has no part in it, and no two different label sets share a stream.
pub fingerprint_iff :
    (s t : Labels)
    → HasNoDuplicates s
    → HasNoDuplicates t
    → IsPlain s
    → IsPlain t
    → (fingerprint s ≡ fingerprint t) ↔ SameMap s t
fingerprint_iff s t ds dt hs ht = (SameMap-fingerprint s t hs ht, fingerprint-SameMap s t ds dt)
