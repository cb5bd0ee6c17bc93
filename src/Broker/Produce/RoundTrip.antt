-- ===== src/Broker/Produce/RoundTrip.antt =====
-- Every record that a producer encodes reaches the channel, in order, with its topic and partition.
use ome_kafka_bridge.Common.{
  ℕ, ◌≤◌, arith, subst, false, if◌then◌else◌, ◌==◌, concat, List, [], ◌∷◌, ◌++◌, map, Bytes, length,
  length-append, append_assoc, append-nil, All, ℤ, pos, negsuc, Option, none, some, le→ltb,
}
use ome_kafka_bridge.Common.{uint16}
use ome_kafka_bridge.Binary.{be16}
use ome_kafka_bridge.Binary.Fixed.{length-be64, length-be32}
use ome_kafka_bridge.Binary.Varint.{zigzag, length-put_uvarint}
use ome_kafka_bridge.Broker.Reader.{Read, ◌>>=◌, ◌>>◌, pure, remaining, read_slice, read_string}
use ome_kafka_bridge.Broker.Reader.View.{IsAt-length}
use ome_kafka_bridge.Broker.Reader.Parses.{
  Parses, Parses-pure, Parses-bind, Parses-then, Parses-read_int8, Parses-read_int16_any,
  Parses-read_int32_any, Parses-read_int64_any, Parses-read_int32, Parses-read_int64,
  Parses-read_varint, Parses-read_var_bytes, Parses-read_string, Parses-read_int16,
}
use ome_kafka_bridge.Broker.State.{Message, unix_milli, send_all}
use ome_kafka_bridge.Broker.State.Channel.{send_all-append}
use ome_kafka_bridge.Broker.Writer.Appends.{concat_map}
use ome_kafka_bridge.Broker.Records.{
  skip_headers, decode_record, decode_records, make_messages, decode_record_batch_v2,
  decode_record_batch, read_magic,
}
use ome_kafka_bridge.Broker.Produce.{
  skip_tags, produce_partition, produce_partitions, produce_topic, produce_topics, read_produce,
}
use ome_kafka_bridge.Broker.Produce.Encoding.{
  Record, Batch, Partition, Topic, Request, encode_nullable, encode_header, encode_start,
  encode_rest, encode_record, encode_batch, encode_partition, encode_topic, encode_request,
  HeaderFits, RecordFits, BatchFits, PartitionFits, TopicFits, RequestFits, NullableFits,
  record_message, partition_messages, topic_messages, request_messages,
}

Parses-skip_headers :
    (hs : List (Bytes × Bytes))
    → All HeaderFits hs
    → Parses (skip_headers (length hs)) (concat_map encode_header hs) tt
unfolding skip_headers
Parses-skip_headers [] h = Parses-pure tt
Parses-skip_headers ((k, v) ∷ hs) ((hk, hv), h) = rw append_assoc (
    Parses-bind _ (Parses-read_var_bytes k hk)
      (Parses-bind _ (Parses-read_var_bytes v hv) (Parses-skip_headers hs h)))

module _ (topic : Bytes) (partition : ℤ) where
  Parses-decode_record :
      (ms : ℤ) (rec : Record)
      → RecordFits rec
      → Parses
          (decode_record topic partition (unix_milli ms))
          (encode_record rec)
          (record_message topic partition ms rec)
  unfolding decode_record encode_record
  Parses-decode_record ms rec h = Parses-bind _ (Parses-read_varint rec.size h.size) (
      Parses-bind _ (Parses-read_int8 rec.attributes h.attributes) (
        Parses-bind _ (Parses-read_varint rec.timestamp_delta h.timestamp_delta) (
          Parses-bind _ (Parses-read_varint rec.offset_delta h.offset_delta) (
            Parses-bind _ (Parses-read_var_bytes rec.key h.key) (
              Parses-bind _ (Parses-read_var_bytes rec.value h.value) (
                Parses-bind _ (Parses-read_varint (pos (length rec.headers)) h.count)
                  (Parses-then _ (Parses-skip_headers rec.headers h.headers))))))))

Parses-while_remaining {ℓ} :
    {A : Type ℓ} {p : Read A} (q : Read A) {enc : Bytes} {v : A}
    → 1 ≤ length enc
    → Parses p enc v
    → Parses (λ r. if remaining r == 0 then q r else p r) enc v
Parses-while_remaining q {enc} long h = record {
  runs = λ r s at. ground (arith, IsAt-length at, length-append enc s, h.runs r s at);
}

length-encode_record : (rec : Record) → 1 ≤ length (encode_record rec)
unfolding encode_record
length-encode_record rec = rw length-append (omega (arith, length-put_uvarint (zigzag rec.size)))

module _ (topic : Bytes) (partition : ℤ) (ms : ℤ) where
  Parses-decode_records :
      (recs : List Record) (msgs : List Message)
      → All RecordFits recs
      → Parses
          (decode_records topic partition (unix_milli ms) (length recs) msgs)
          (concat_map encode_record recs)
          (msgs ++ map (record_message topic partition ms) recs)
  unfolding decode_records
  Parses-decode_records [] msgs h = rw append-nil (Parses-pure msgs)
  Parses-decode_records (rec ∷ recs) msgs (hr, h) =
      Parses-while_remaining _
        (omega (
          arith,
          length-append (encode_record rec) (concat_map encode_record recs),
          length-encode_record rec,
        ))
        (rw (← append_assoc msgs (record_message topic partition ms rec ∷ [])) (
          Parses-bind _ (Parses-decode_record topic partition ms rec hr)
            (Parses-decode_records recs (msgs ++ record_message topic partition ms rec ∷ []) h)))

Parses-make_messages : (n : ℕ) → Parses (make_messages (pos n)) [] []
unfolding make_messages
Parses-make_messages n = Parses-pure []

length-encode_batch : (b : Batch) → 17 ≤ length (encode_batch b)
unfolding encode_batch
length-encode_batch b = simp (length-append, length-be64, length-be32) (omega arith)

pub Parses-read_magic : (b : Batch) → Parses read_magic (encode_start b) (pos 2)
unfolding read_magic
Parses-read_magic b = Parses-bind _ (Parses-read_int64_any b.base_offset) (
    Parses-bind _ (Parses-read_int32_any b.batch_length) (
      Parses-bind _ (Parses-read_int32_any b.leader_epoch)
        (Parses-read_int8 (pos 2) (omega arith))))

Parses-decode_record_batch_v2 :
    (topic : Bytes) (partition : ℤ) (b : Batch)
    → BatchFits b
    → Parses
        (decode_record_batch_v2 topic partition)
        (encode_rest b)
        (map (record_message topic partition b.base_timestamp) b.records)
unfolding decode_record_batch_v2
Parses-decode_record_batch_v2 topic partition b h =
    Parses-bind _ (Parses-read_int16_any b.attributes) (
      Parses-bind _ (Parses-read_int32_any b.last_offset_delta) (
        Parses-bind _ (Parses-read_int64 b.base_timestamp h.base_timestamp) (
          Parses-bind _ (Parses-read_int64_any b.max_timestamp) (
            Parses-bind _ (Parses-read_int64_any b.producer_id) (
              Parses-bind _ (Parses-read_int16_any b.producer_epoch) (
                Parses-bind _ (Parses-read_int32_any b.base_sequence) (
                  Parses-bind _ (Parses-read_int32 (pos (length b.records)) h.count) (
                    Parses-bind _ (Parses-make_messages (length b.records)) (
                      Parses-decode_records topic partition b.base_timestamp b.records []
                        h.records)))))))))

Parses-decode_record_batch :
    (topic : Bytes) (partition : ℤ) (b : Batch)
    → BatchFits b
    → Parses
        (decode_record_batch topic partition)
        (encode_batch b)
        (map (record_message topic partition b.base_timestamp) b.records)
unfolding decode_record_batch encode_batch
Parses-decode_record_batch topic partition b h = record {
  runs = λ r s at.
      let long : 17 ≤ remaining r =
        omega (arith, IsAt-length at, length-append (encode_batch b) s, length-encode_batch b) in
      rw (le→ltb (remaining r) 17 long) (
        (Parses-bind _ (Parses-read_magic b)
            (Parses-decode_record_batch_v2 topic partition b h)).runs
          r s at);
}

-- A version that is not flexible has no tagged fields at its end.
Parses-untagged {ℓ} :
    {A B : Type ℓ} {p : Read A} (g : A → B) {e : Bytes} {a : A}
    → Parses p e a
    → Parses (p >>= λ x. skip_tags false >> pure (g x)) e (g a)
unfolding skip_tags ◌>>=◌
Parses-untagged g h = Parses-then g h

Parses-produce_partition :
    (topic : Bytes) (ch : List Message) (p : Partition)
    → PartitionFits p
    → Parses
        (produce_partition false topic ch)
        (encode_partition encode_batch p)
        (send_all ch (partition_messages topic p))
unfolding produce_partition encode_partition
Parses-produce_partition topic ch p h = Parses-bind _ (Parses-read_int32 p.index h.index) (
    Parses-bind _ (Parses-read_int32_any p.size)
      (Parses-untagged _ (Parses-decode_record_batch topic p.index p.batch h.batch)))

Parses-produce_partitions :
    (topic : Bytes) (ch : List Message) (ps : List Partition)
    → All PartitionFits ps
    → Parses
        (produce_partitions false topic (length ps) ch)
        (concat_map (encode_partition encode_batch) ps)
        (send_all ch (concat (map (partition_messages topic) ps)))
unfolding produce_partitions send_all
Parses-produce_partitions topic ch [] h = Parses-pure ch
Parses-produce_partitions topic ch (p ∷ ps) (hp, h) = rw send_all-append (
    Parses-bind _ (Parses-produce_partition topic ch p hp)
      (Parses-produce_partitions topic (send_all ch (partition_messages topic p)) ps h))

Parses-produce_topic :
    (ch : List Message) (t : Topic)
    → TopicFits t
    → Parses (produce_topic false ch) (encode_topic encode_batch t) (send_all ch (topic_messages t))
unfolding produce_topic encode_topic
Parses-produce_topic ch t h =
    (Parses-bind _ (Parses-read_string t.name h.name) (
      Parses-bind _ (Parses-read_int32 (pos (length t.partitions)) h.count)
        (Parses-untagged _ (Parses-produce_partitions t.name ch t.partitions h.partitions))))

Parses-produce_topics :
    (ch : List Message) (ts : List Topic)
    → All TopicFits ts
    → Parses
        (produce_topics false (length ts) ch)
        (concat_map (encode_topic encode_batch) ts)
        (send_all ch (concat (map topic_messages ts)))
unfolding produce_topics send_all
Parses-produce_topics ch [] h = Parses-pure ch
Parses-produce_topics ch (t ∷ ts) (ht, h) = rw send_all-append (
    Parses-bind _ (Parses-produce_topic ch t ht)
      (Parses-produce_topics (send_all ch (topic_messages t)) ts h))

Parses-read_slice_null : Parses (read_slice (negsuc 0)) [] []
unfolding read_slice
Parses-read_slice_null = Parses-pure []

-- A null string is read as the empty one.
abbrev pub or_empty : Option Bytes → Bytes
or_empty none = []
or_empty (some s) = s

pub Parses-read_nullable :
    (s : Option Bytes) → NullableFits s → Parses read_string (encode_nullable s) (or_empty s)
Parses-read_nullable none h =
    subst (λ t. Parses read_string t []) (append-nil (be16 (uint16 (negsuc 0))))
      (unfold read_string in
        Parses-bind _ (Parses-read_int16 (negsuc 0) (omega arith)) Parses-read_slice_null)
Parses-read_nullable (some s) h = Parses-read_string s h

pub Parses-read_produce :
    (ch : List Message) (q : Request)
    → RequestFits q
    → Parses
        (read_produce false ch)
        (encode_request encode_batch q)
        (send_all ch (request_messages q))
unfolding read_produce encode_request
Parses-read_produce ch q h =
    Parses-bind _ (Parses-read_nullable q.transactional_id h.transactional_id) (
      Parses-bind _ (Parses-read_int16_any q.acks) (
        Parses-bind _ (Parses-read_int32_any q.timeout) (
          Parses-bind _ (Parses-read_int32 (pos (length q.topics)) h.count)
            (Parses-untagged _ (Parses-produce_topics ch q.topics h.topics)))))
