-- ===== src/Broker/Metadata.antt =====
-- handleMetadata of broker.go: it reads the topics that are asked for, creates those that are new,
-- and answers with this broker and every topic of the set.
use ome_kafka_bridge.Common.{at_least}
use ome_kafka_bridge.Common.{
  ℕ, zero, suc, ◌+◌, ◌%◌, ◌^◌, ◌-◌, Bool, true, false, ◌&&◌, not, if◌then◌else◌, List, [], ◌∷◌,
  ◌++◌, Bytes, codes, length, ℤ, pos, negsuc, pos_part, int32, uint64, contains,
}
use ome_kafka_bridge.Config.{KafkaConfig, text_or, int_or}
use ome_kafka_bridge.Broker.Outcome.{Outcome, done, bind}
use ome_kafka_bridge.Broker.Reader
use ome_kafka_bridge.Broker.Reader.{
  Reader, Read, pure, read_int32, read_uvarint, read_string, read_compact_string, int_pred,
}
use ome_kafka_bridge.Broker.Writer.{
  Write, ◌>>◌, skip, write_each, write_raw, write_bool, write_int16, write_int32, write_uvarint,
  write_string, write_compact_string, int32_of, uint64_of,
}
use ome_kafka_bridge.Broker.State.{Broker, add_topic}
pub mod Request
pub mod Topics
pub mod Client
pub mod Answer

-- A field that flexible versions encode in another way.
abbrev pub either : Bool → Write → Write → Write
either flexible f g = if flexible then f else g

-- What only some versions have.
abbrev pub when : Bool → Write → Write
when b f = if b then f else skip

-- `if t != "" && !b.topicSet[t]`, for each topic that was asked for
unfoldable pub create_topics : List Bytes → List Bytes → List Bytes
unfolding add_topic
create_topics set [] = set
create_topics set ([] ∷ ts) = create_topics set ts
create_topics set ((c ∷ t) ∷ ts) = create_topics (add_topic set (c ∷ t)) ts

abbrev zeros : Bytes
zeros = 0 ∷ 0 ∷ 0 ∷ 0 ∷ 0 ∷ 0 ∷ 0 ∷ 0 ∷ 0 ∷ 0 ∷ 0 ∷ 0 ∷ 0 ∷ 0 ∷ 0 ∷ 0 ∷ []

-- int32(port) of an `int`
abbrev pub port32 : ℤ → ℤ
port32 port = int32 (uint64 port)

module _ (version : ℤ) where
  abbrev flexible : Bool
  flexible = at_least 9 version

  -- an array of `n` items
  abbrev write_count : ℕ → Write
  write_count n = either flexible (write_uvarint (n + 1)) (write_int32 (pos n))

  abbrev write_name : Bytes → Write
  write_name s = either flexible (write_compact_string s) (write_string s)

  unfoldable pub write_partition : Write
  write_partition = do
    write_count 1
    write_int16 (pos 0)
    write_int32 (pos 0)
    write_int32 (pos 1)
    when (at_least 7 version) (write_int32 (pos 0))
    write_count 1
    write_int32 (pos 1)
    write_count 1
    write_int32 (pos 1)
    when (at_least 5 version) (write_count 0)
    when flexible (write_uvarint 0)

  unfoldable pub write_topic : Bytes → Write
  write_topic t = do
    write_int16 (pos 0)
    write_name t
    when (at_least 9 version) (write_raw zeros)
    when (at_least 1 version) (write_bool false)
    write_partition
    when (at_least 8 version) (write_int32 (negsuc 2147483647))
    when flexible (write_uvarint 0)

  unfoldable pub write_brokers : KafkaConfig → Write
  write_brokers c = do
    write_count 1
    write_int32 (pos 1)
    write_name (text_or c.advertised_host (codes "localhost"))
    write_int32 (port32 (int_or c.advertised_port (pos 9092)))
    if flexible then (do write_uvarint 0; write_uvarint 0) else write_int16 (negsuc 0)

  unfoldable pub metadata_response : KafkaConfig → List Bytes → ℤ → Write
  metadata_response c topics corr = do
    write_int32 corr
    when flexible (write_uvarint 0)
    write_int32 (pos 0)
    write_brokers c
    when (at_least 2 version) (either flexible (write_uvarint 0) (write_int16 (negsuc 0)))
    when (at_least 1 version) (write_int32 (pos 1))
    either flexible (write_uvarint (uint64_of (length topics + 1)))
        (write_int32 (int32_of (length topics)))
    write_each write_topic topics
    when (at_least 8 version) (write_int32 (pos 0))
    when flexible (write_uvarint 0)
