-- ===== src/Broker/Produce.antt =====
-- handleProduce of broker.go: it decodes every record of a produce request and hands it on. Each
-- loop carries the channel. A consumer that takes messages while a request is handled only makes
-- room, so fewer records are dropped than here.
pub mod Response
pub mod Encoding
pub mod RoundTrip
pub mod Checksum
use ome_kafka_bridge.Common.{
  ℕ, zero, suc, ◌+◌, ◌-◌, ◌%◌, ◌^◌, Bool, true, false, if◌then◌else◌, List, [], ◌∷◌, Bytes, ℤ, pos,
  negsuc, pos_part, int32,
}
use ome_kafka_bridge.Broker.Reader.{
  Read, ◌>>=◌, ◌>>◌, pure, read_int16, read_int32, read_uvarint, read_string, read_compact_string,
  read_compact_nullable_string,
}
use ome_kafka_bridge.Broker.State.{Message, send_all}
use ome_kafka_bridge.Broker.Records.{decode_record_batch}

module _ (flexible : Bool) where
  -- int32(r.readUvarint()) - 1, or an int32
  unfoldable pub read_count : Read ℤ
  read_count = if flexible then (do v ← read_uvarint; pure (int32 (v + 2 ^ 32 - 1))) else read_int32

  unfoldable pub read_topic : Read Bytes
  read_topic = if flexible then read_compact_string else read_string

  unfoldable pub read_transactional_id : Read Bytes
  read_transactional_id = if flexible then read_compact_nullable_string else read_string

  -- The tagged fields of a flexible version: only their number is read.
  unfoldable pub skip_tags : Read (Unit {0})
  skip_tags = if flexible then (do read_uvarint; pure tt) else pure tt

  unfoldable pub produce_partition : Bytes → List Message → Read (List Message)
  unfolding skip_tags
  produce_partition topic ch = do
    partition ← read_int32
    read_int32
    msgs ← decode_record_batch topic partition
    skip_tags
    pure (send_all ch msgs)

  unfoldable pub produce_partitions : Bytes → ℕ → List Message → Read (List Message)
  unfolding produce_partition
  produce_partitions topic zero ch = pure ch
  produce_partitions topic (suc n) ch = do
    ch' ← produce_partition topic ch
    produce_partitions topic n ch'

  unfoldable pub produce_topic : List Message → Read (List Message)
  unfolding read_topic read_count produce_partitions
  produce_topic ch = do
    topic ← read_topic
    n_partitions ← read_count
    ch' ← produce_partitions topic (pos_part n_partitions) ch
    skip_tags
    pure ch'

  unfoldable pub produce_topics : ℕ → List Message → Read (List Message)
  unfolding produce_topic
  produce_topics zero ch = pure ch
  produce_topics (suc n) ch = do ch' ← produce_topic ch; produce_topics n ch'

  unfoldable pub read_produce : List Message → Read (List Message)
  unfolding read_transactional_id produce_topics
  read_produce ch = do
    read_transactional_id
    read_int16
    read_int32
    n_topics ← read_count
    ch' ← produce_topics (pos_part n_topics) ch
    skip_tags
    pure ch'
