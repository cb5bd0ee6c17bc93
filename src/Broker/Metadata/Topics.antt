-- ===== src/Broker/Metadata/Topics.antt =====
-- The topic set and the topics that a metadata request asks for.
use ome_kafka_bridge.Common.{
  ◌+◌, ◌^◌, ◌<◌, ◌≡◌, arith, Bool, true, false, ◌||◌, ◌&&◌, not, List, [], ◌∷◌, ◌++◌, Bytes, length,
  All, pos, str_eq, str_eq_iff, contains, contains-append,
}
use ome_kafka_bridge.Binary.{put_uvarint}
use ome_kafka_bridge.Broker.Reader.Parses.{
  Parses, Parses-bind, Parses-then, Parses-read_int32, Parses-read_uvarint, Parses-read_string,
  Parses-read_compact_string, int_pred-suc,
}
use ome_kafka_bridge.Broker.Writer.Appends.{concat_map}
use ome_kafka_bridge.Broker.Produce.Encoding.{encode_string, encode_count}
use ome_kafka_bridge.Broker.State.{add_topic, add_topics}
use ome_kafka_bridge.Broker.Metadata.{create_topics}
use ome_kafka_bridge.Broker.Metadata.Request.{read_topics, read_compact_topic}
use ome_kafka_bridge.Broker.ApiVersions.Client.{Parses-repeat}

abbrev pub is_empty : Bytes → Bool
is_empty [] = true
is_empty (c ∷ s) = false

contains-add_topic :
    (set : List Bytes) (t k : Bytes) → contains (add_topic set t) k ≡ (contains set k || str_eq t k)
unfolding add_topic contains
contains-add_topic set t k = ground (arith, contains-append set (t ∷ []) k, str_eq_iff t k)

-- After a request the set holds what it held and every topic that was asked for by a name that is
-- not empty, and nothing else.
pub contains-create_topics :
    (ts set : List Bytes) (k : Bytes)
    → contains (create_topics set ts) k ≡ (contains set k || (contains ts k && not (is_empty k)))
unfolding create_topics contains
contains-create_topics [] set k = ground arith
contains-create_topics ([] ∷ ts) set k =
    ground (arith, contains-create_topics ts set k, str_eq_iff [] k)
contains-create_topics ((c ∷ t) ∷ ts) set k = ground (
  arith,
  contains-create_topics ts (add_topic set (c ∷ t)) k,
  contains-add_topic set (c ∷ t) k,
  str_eq_iff (c ∷ t) k,
)

-- No topic is listed twice.
abbrev pub IsSetOf : List Bytes → Type 0
IsSetOf [] = Unit {0}
IsSetOf (t ∷ ts) = (contains ts t ≡ false) × IsSetOf ts

IsSetOf-snoc :
    (xs : List Bytes) (t : Bytes) → IsSetOf xs → contains xs t ≡ false → IsSetOf (xs ++ t ∷ [])
unfolding contains
IsSetOf-snoc [] t h new = ground arith
IsSetOf-snoc (x ∷ xs) t (fresh, h) new =
    ground
      (arith, IsSetOf-snoc xs t h, contains-append xs (t ∷ []) x, str_eq_iff x t, str_eq_iff t x)

IsSetOf-add_topic : (set : List Bytes) (t : Bytes) → IsSetOf set → IsSetOf (add_topic set t)
unfolding add_topic
IsSetOf-add_topic set t h = ground (arith, IsSetOf-snoc set t h)

-- If the set lists no topic twice, it lists none twice after the topics of a request are created.
pub IsSetOf-create_topics : (ts set : List Bytes) → IsSetOf set → IsSetOf (create_topics set ts)
unfolding create_topics
IsSetOf-create_topics [] set h = h
IsSetOf-create_topics ([] ∷ ts) set h = IsSetOf-create_topics ts set h
IsSetOf-create_topics ((c ∷ t) ∷ ts) set h =
    IsSetOf-create_topics ts (add_topic set (c ∷ t)) (IsSetOf-add_topic set (c ∷ t) h)

pub IsSetOf-add_topics : (ts set : List Bytes) → IsSetOf set → IsSetOf (add_topics set ts)
unfolding add_topics
IsSetOf-add_topics [] set h = h
IsSetOf-add_topics (t ∷ ts) set h =
    IsSetOf-add_topics ts (add_topic set t) (IsSetOf-add_topic set t h)

abbrev pub NameFits : Bytes → Type 0
NameFits t = length t < 2 ^ 15

-- A compact string and the number of its tagged fields.
abbrev pub encode_compact_topic : Bytes → Bytes
encode_compact_topic t = (put_uvarint (length t + 1) ++ t) ++ put_uvarint 0

Parses-read_compact_topic :
    (t : Bytes) → NameFits t → Parses read_compact_topic (encode_compact_topic t) t
unfolding read_compact_topic
Parses-read_compact_topic t h =
    Parses-bind _ (Parses-read_compact_string t (omega arith))
      (Parses-then _ (Parses-read_uvarint 0 (omega arith)))

-- The topics of a request, by whether its version is flexible.
abbrev pub encode_topics : Bool → List Bytes → Bytes
encode_topics true ts =
    put_uvarint (length ts + 1) ++ (concat_map encode_compact_topic ts ++ put_uvarint 0)
encode_topics false ts = encode_count (length ts) ++ concat_map encode_string ts

pub Parses-read_topics :
    (flexible : Bool) (ts : List Bytes)
    → length ts < 2 ^ 31
    → All NameFits ts
    → Parses (read_topics flexible) (encode_topics flexible ts) ts
unfolding read_topics
Parses-read_topics true ts count h =
    Parses-bind _ (Parses-read_uvarint (length ts + 1) (omega arith)) (
      rw (int_pred-suc (length ts) (omega arith)) (
        Parses-bind _
          (Parses-repeat NameFits read_compact_topic encode_compact_topic ts
            Parses-read_compact_topic h)
          (Parses-then _ (Parses-read_uvarint 0 (omega arith)))))
Parses-read_topics false ts count h =
    Parses-bind _ (Parses-read_int32 (pos (length ts)) count)
      (Parses-repeat NameFits _ encode_string ts Parses-read_string h)
