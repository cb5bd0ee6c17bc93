-- ===== src/Lokiwriter/Group.antt =====
-- Every entry of a batch is in the stream of its fingerprint, once and in order.
use ome_kafka_bridge.Common.{
  ℕ, ◌+◌, ◌≡◌, ◌∙◌, subst, refl, arith, Bool, true, false, Bool-cases, Option-cases, inl, inr,
  if◌then◌else◌, Option, none, some, List, [], ◌∷◌, ◌++◌, append_assoc, append-nil, map, Bytes,
  length, length-append, ℤ, str_eq, str_eq_iff, str_eq_refl,
}
use ome_kafka_bridge.Labels.{Labels}
use ome_kafka_bridge.Lokiwriter.{
  Entry, Stream, Grouped, fingerprint, find, append_value, add_stream, add_entry, group,
}

abbrev pub value : Entry → ℤ × Bytes
value e = (e.timestamp, e.line)

-- The entries of a fingerprint, in their order.
abbrev pub matching : Bytes → List Entry → List Entry
matching fp [] = []
matching fp (e ∷ es) =
    let rest = matching fp es in if str_eq (fingerprint e.stream_labels) fp then e ∷ rest else rest

-- The stream of the entries: the labels of the first, and the values of all.
abbrev pub stream_of : List Entry → Option Stream
stream_of [] = none
stream_of (e ∷ es) = some (record { stream = e.stream_labels; values = map value (e ∷ es) })

-- A stream that may be there already, with the entries after what it holds.
abbrev extend : Option Stream → List Entry → Option Stream
extend none es = stream_of es
extend (some s) es = some (record s { values = s.values ++ map value es })

find-append :
    (grouped : Grouped) (k fp : Bytes) (s : Stream)
    → find (grouped ++ (k, s) ∷ []) fp
      ≡ elim (find grouped fp) [ none ↦ if str_eq k fp then some s else none | some t ↦ some t ]
unfolding find
find-append [] k fp s = refl
find-append ((k', s') ∷ grouped) k fp s = ground (arith, find-append grouped k fp s)

find-append_value :
    (grouped : Grouped) (k fp : Bytes) (v : ℤ × Bytes)
    → find (append_value k v grouped) fp ≡ elim (find grouped fp) [
      | none ↦ none
      | some s ↦ some (if str_eq k fp then record s { values = s.values ++ v ∷ [] } else s)
    ]
unfolding find append_value
find-append_value [] k fp v = refl
find-append_value ((k', s) ∷ grouped) k fp v =
    ground
      (arith, find-append_value grouped k fp v, str_eq_iff k' k, str_eq_iff k' fp, str_eq_iff k fp)

add_stream-new :
    (grouped : Grouped) (k : Bytes) (labels : Labels)
    → find grouped k ≡ none
    → add_stream k labels grouped ≡ grouped ++ (k, record { stream = labels; values = [] }) ∷ []
unfolding add_stream
add_stream-new grouped k labels h = rw (h, add_stream) refl

add_stream-old :
    (grouped : Grouped) (k : Bytes) (labels : Labels) (t : Stream)
    → find grouped k ≡ some t
    → add_stream k labels grouped ≡ grouped
unfolding add_stream
add_stream-old grouped k labels t h = rw (h, add_stream) refl

-- A stream that is added for another fingerprint changes nothing for this one.
other_stream :
    (o : Option Stream) (same : Bool) (s : Stream)
    → same ≡ false
    → o ≡ elim o as (λ _. Option Stream) [ none ↦ if same then some s else none | some t ↦ some t ]
other_stream none same s h = rw h refl
other_stream (some t) same s h = refl

find-add_stream :
    (grouped : Grouped) (k fp : Bytes) (labels : Labels)
    → find (add_stream k labels grouped) fp ≡ elim (find grouped fp) [
      | none ↦ if str_eq k fp then some (record { stream = labels; values = [] }) else none
      | some t ↦ some t
    ]
find-add_stream grouped k fp labels = elim (Option-cases (find grouped k)) [
  | inl new ↦
      rw (add_stream-new grouped k labels new)
        (find-append grouped k fp (record { stream = labels; values = [] }))
  | inr (t, old) ↦ elim (Bool-cases (str_eq k fp)) [
    | inl same ↦
        let here : find grouped fp ≡ some t =
          subst (λ s. find grouped s ≡ some t) ((str_eq_iff k fp).0 same) old in
        rw (add_stream-old grouped k labels t old, here) refl
    | inr other ↦ rw (add_stream-old grouped k labels t old) (
        other_stream (find grouped fp) (str_eq k fp) (record { stream = labels; values = [] })
          other)
  ]
]

-- What finding, adding and appending come to, by whether the fingerprint is the entry's.
add_found :
    (o : Option Stream) (same : Bool) (e : Entry)
    → elim (elim o as (λ _. Option Stream) [
      | none ↦ if same then some (record { stream = e.stream_labels; values = [] }) else none
      | some t ↦ some t
    ])
        as (λ _. Option Stream) [
          | none ↦ none
          | some s ↦ some (if same then record s { values = s.values ++ value e ∷ [] } else s)
        ]
      ≡ (if same then extend o (e ∷ []) else o)
add_found none true e = refl
add_found none false e = refl
add_found (some s) true e = refl
add_found (some s) false e = refl

find-add_entry :
    (grouped : Grouped) (e : Entry) (fp : Bytes)
    → find (add_entry grouped e) fp ≡ (
        if str_eq (fingerprint e.stream_labels) fp
        then extend (find grouped fp) (e ∷ [])
        else find grouped fp)
unfolding add_entry
find-add_entry grouped e fp =
    let k = fingerprint e.stream_labels in
    find-append_value (add_stream k e.stream_labels grouped) k fp (value e)
    ∙ rw (find-add_stream grouped k fp e.stream_labels)
        (add_found (find grouped fp) (str_eq k fp) e)

extend-extend :
    (o : Option Stream) (e : Entry) (es : List Entry)
    → extend (extend o (e ∷ [])) es ≡ extend o (e ∷ es)
extend-extend none e es = refl
extend-extend (some s) e es = rw append_assoc refl

extend-nil : (o : Option Stream) → o ≡ extend o []
extend-nil none = refl
extend-nil (some s) = rw append-nil refl

extend-if :
    (same : Bool) (o : Option Stream) (e : Entry) (es : List Entry)
    → extend (if same then extend o (e ∷ []) else o) es ≡ extend o (if same then e ∷ es else es)
extend-if true o e es = extend-extend o e es
extend-if false o e es = refl

find-group_from :
    (es : List Entry) (grouped : Grouped) (fp : Bytes)
    → find (group grouped es) fp ≡ extend (find grouped fp) (matching fp es)
unfolding group
find-group_from [] grouped fp = extend-nil (find grouped fp)
find-group_from (e ∷ es) grouped fp =
    find-group_from es (add_entry grouped e) fp
    ∙ rw (find-add_entry grouped e fp)
        (extend-if (str_eq (fingerprint e.stream_labels) fp) (find grouped fp) e (matching fp es))

-- A batch is grouped by fingerprint: the stream of a fingerprint has the labels of the first entry
-- with it, and the values of all entries with it, in their order; a fingerprint that no entry has,
-- has no stream.
pub find-group : (es : List Entry) (fp : Bytes) → find (group [] es) fp ≡ stream_of (matching fp es)
unfolding find
find-group es fp = find-group_from es [] fp

-- The values of all streams.
abbrev pub total : Grouped → ℕ
total [] = 0
total ((k, s) ∷ grouped) = length s.values + total grouped

-- One value more, if the key is there.
total-append_value :
    (grouped : Grouped) (k : Bytes) (v : ℤ × Bytes) (s : Stream)
    → find grouped k ≡ some s
    → total (append_value k v grouped) ≡ total grouped + 1
unfolding find append_value
total-append_value [] k v s h = absurd (grind arith)
total-append_value ((k', t) ∷ grouped) k v s h =
    ground (arith, total-append_value grouped k v s, length-append t.values (v ∷ []))

total-append :
    (grouped : Grouped) (k : Bytes) (labels : Labels)
    → total (grouped ++ (k, record { stream = labels; values = [] }) ∷ []) ≡ total grouped
total-append [] k labels = refl
total-append ((k', s) ∷ grouped) k labels = omega (arith, total-append grouped k labels)

total-add_stream :
    (grouped : Grouped) (k : Bytes) (labels : Labels)
    → total (add_stream k labels grouped) ≡ total grouped
total-add_stream grouped k labels = elim (Option-cases (find grouped k)) [
  | inl new ↦ rw (add_stream-new grouped k labels new) (total-append grouped k labels)
  | inr (t, old) ↦ rw (add_stream-old grouped k labels t old) refl
]

find-add_stream_same :
    (grouped : Grouped) (k : Bytes) (labels : Labels)
    → (s : Stream) × (find (add_stream k labels grouped) k ≡ some s)
find-add_stream_same grouped k labels = elim (Option-cases (find grouped k)) [
  | inl new ↦ (
    record { stream = labels; values = [] },
    rw (find-add_stream grouped k k labels, new, str_eq_refl k) refl,
  )
  | inr (t, old) ↦ (t, rw (find-add_stream grouped k k labels, old) refl)
]

total-add_entry : (grouped : Grouped) (e : Entry) → total (add_entry grouped e) ≡ total grouped + 1
unfolding add_entry
total-add_entry grouped e =
    let k = fingerprint e.stream_labels in
    let (s, found) = find-add_stream_same grouped k e.stream_labels in
    omega (
      arith,
      total-append_value (add_stream k e.stream_labels grouped) k (value e) s found,
      total-add_stream grouped k e.stream_labels,
    )

total-group_from :
    (es : List Entry) (grouped : Grouped) → total (group grouped es) ≡ total grouped + length es
unfolding group
total-group_from [] grouped = omega arith
total-group_from (e ∷ es) grouped =
    omega (arith, total-group_from es (add_entry grouped e), total-add_entry grouped e)

-- Grouping a batch loses no entry and counts none twice: the streams have as many values together
-- as the batch has entries.
pub total-group : (es : List Entry) → total (group [] es) ≡ length es
total-group es = omega (arith, total-group_from es [])
