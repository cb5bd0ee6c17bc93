-- ===== src/Broker/Request/Crash.antt =====
-- A produce request in Kafka's own layout, from a producer that is not idempotent.
use ome_kafka_bridge.Common.{at_least}
use ome_kafka_bridge.Common.{
  ◌^◌, ◌<◌, ◌≤◌, ◌≡◌, false, List, ◌∷◌, ◌++◌, Bytes, length, ℤ, pos, InRange, Option, uint32,
}
use ome_kafka_bridge.Broker.Outcome.{panic}
use ome_kafka_bridge.Broker.Reader.Parses.{
  Parses-read_int16_any, Parses-read_int32, Parses-read_int32_any, Parses-read_string,
}
use ome_kafka_bridge.Broker.Reader.Panics.{Panics, Panics-first, Panics-after, Panics-longer}
use ome_kafka_bridge.Broker.State.{Broker, Message}
use ome_kafka_bridge.Broker.Request.{dispatch, handle_request}
use ome_kafka_bridge.Broker.Request.Whole.{encode_header, handle_request-Panics}
use ome_kafka_bridge.Broker.Request.Produce.{produce_header, produce_header-Fits}
use ome_kafka_bridge.Broker.Produce.{
  read_produce, produce_partition, produce_partitions, produce_topic, produce_topics,
}
use ome_kafka_bridge.Broker.Produce.Encoding.{
  Request, Topic, Partition, Batch, NullableFits, encode_request, encode_topic, encode_partition,
  kafka_batch,
}
use ome_kafka_bridge.Broker.Produce.RoundTrip.{Parses-read_nullable}
use ome_kafka_bridge.Broker.Produce.Checksum.{Panics-decode_record_batch}
use ome_kafka_bridge.Broker.Writer.Appends.{concat_map}

-- The base sequence is a negative int32.
pub record IsPlainBatch (b : Batch) : Type 0 where
  pub low : 2 ^ 31 ≤ b.base_sequence
  pub high : b.base_sequence < 2 ^ 32

Panics-partition :
    (topic : Bytes) (ch : List Message) (p : Partition)
    → IsPlainBatch p.batch
    → Panics (produce_partition false topic ch) (encode_partition kafka_batch p)
unfolding produce_partition encode_partition
Panics-partition topic ch p h = Panics-after _ (Parses-read_int32_any (uint32 p.index)) (
    Panics-after _ (Parses-read_int32_any p.size)
      (Panics-first _ (Panics-decode_record_batch topic _ p.batch h.low h.high)))

Panics-partitions :
    (topic : Bytes) (ch : List Message) (p : Partition) (ps : List Partition)
    → IsPlainBatch p.batch
    → Panics
        (produce_partitions false topic (length (p ∷ ps)) ch)
        (concat_map (encode_partition kafka_batch) (p ∷ ps))
unfolding produce_partitions
Panics-partitions topic ch p ps h = Panics-longer _ (Panics-first _ (Panics-partition topic ch p h))

-- The first partition of the topic holds such a batch.
pub record IsPlainTopic (t : Topic) (p : Partition) (ps : List Partition) : Type 0 where
  pub partitions : t.partitions ≡ p ∷ ps
  pub count : length t.partitions < 2 ^ 31
  pub name : length t.name < 2 ^ 15
  pub batch : IsPlainBatch p.batch

Panics-topic :
    (ch : List Message) (t : Topic) (p : Partition) (ps : List Partition)
    → IsPlainTopic t p ps
    → Panics (produce_topic false ch) (encode_topic kafka_batch t)
unfolding produce_topic encode_topic
Panics-topic ch t p ps h = Panics-after _ (Parses-read_string t.name h.name) (
    Panics-after _ (Parses-read_int32 (pos (length t.partitions)) h.count)
      (Panics-first _ (rw h.partitions (Panics-partitions t.name ch p ps h.batch))))

-- The first topic of the request is such a topic.
pub record IsPlainRequest (q : Request) (t : Topic) (ts : List Topic) (p : Partition)
    (ps : List Partition) : Type 0 where
  pub topics : q.topics ≡ t ∷ ts
  pub count : length q.topics < 2 ^ 31
  pub transactional_id : NullableFits q.transactional_id
  pub topic : IsPlainTopic t p ps

Panics-topics :
    (ch : List Message) (t : Topic) (ts : List Topic) (p : Partition) (ps : List Partition)
    → IsPlainTopic t p ps
    → Panics
        (produce_topics false (length (t ∷ ts)) ch)
        (concat_map (encode_topic kafka_batch) (t ∷ ts))
unfolding produce_topics
Panics-topics ch t ts p ps h = Panics-longer _ (Panics-first _ (Panics-topic ch t p ps h))

Panics-read_produce :
    (ch : List Message) (q : Request) (t : Topic) (ts : List Topic) (p : Partition)
    (ps : List Partition)
    → IsPlainRequest q t ts p ps
    → Panics (read_produce false ch) (encode_request kafka_batch q)
unfolding read_produce encode_request
Panics-read_produce ch q t ts p ps h =
    Panics-after _ (Parses-read_nullable q.transactional_id h.transactional_id) (
      Panics-after _ (Parses-read_int16_any q.acks) (
        Panics-after _ (Parses-read_int32_any q.timeout) (
          Panics-after _ (Parses-read_int32 (pos (length q.topics)) h.count)
            (Panics-first _ (rw h.topics (Panics-topics ch t ts p ps h.topic))))))

module _ (order : List Bytes → List Bytes) (b : Broker) (version corr : ℤ)
    (client : Option Bytes) where
  Panics-dispatch :
      (q : Request) (t : Topic) (ts : List Topic) (p : Partition) (ps : List Partition)
      → at_least 9 version ≡ false
      → IsPlainRequest q t ts p ps
      → Panics (dispatch order b (produce_header version corr)) (encode_request kafka_batch q)
  unfolding dispatch
  Panics-dispatch q t ts p ps plain h =
      rw plain (Panics-first _ (Panics-read_produce b.msg_ch q t ts p ps h))

  -- A produce request in Kafka's own layout, with the checksum behind the magic byte, whose first
  -- partition holds a batch with a negative base sequence, as a producer that is not idempotent
  -- sends it: the broker panics, whatever its state and the records are.
  pub handle_request-crash :
      (q : Request) (t : Topic) (ts : List Topic) (p : Partition) (ps : List Partition)
      → InRange (2 ^ 15) version
      → InRange (2 ^ 31) corr
      → at_least 9 version ≡ false
      → NullableFits client
      → IsPlainRequest q t ts p ps
      → length (encode_header (produce_header version corr) client ++ encode_request kafka_batch q)
        < 2 ^ 63
      → handle_request order b
          (encode_header (produce_header version corr) client ++ encode_request kafka_batch q)
        ≡ panic
  handle_request-crash q t ts p ps hv hc plain hn hq short =
      handle_request-Panics order b (produce_header version corr) client
        (produce_header-Fits version corr hv hc plain) hn (Panics-dispatch q t ts p ps plain hq)
        short
