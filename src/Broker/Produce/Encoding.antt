-- ===== src/Broker/Produce/Encoding.antt =====
-- What a producer sends: produce requests of the versions that are not flexible and have a
-- transactional id, with one record batch of magic 2 for each partition. This describes the Kafka
-- protocol, and no code of the repository.
use ome_kafka_bridge.Common.{concat}
use ome_kafka_bridge.Common.{
  ℕ, ◌^◌, ◌<◌, List, [], ◌∷◌, ◌++◌, Bytes, length, All, map, ℤ, pos, negsuc, InRange, uint8, uint16,
  uint32, uint64, Option, none, some,
}
use ome_kafka_bridge.Binary.{be16, be32, be64, put_uvarint}
use ome_kafka_bridge.Binary.Varint.{zigzag}
use ome_kafka_bridge.Broker.State.{Message, unix_milli}
use ome_kafka_bridge.Broker.Writer.Appends.{concat_map}

pub record Record : Type 0 where
  pub size : ℤ
  pub attributes : ℤ
  pub timestamp_delta : ℤ
  pub offset_delta : ℤ
  pub key : Bytes
  pub value : Bytes
  pub headers : List (Bytes × Bytes)

-- The fields of a batch's header, by their bit patterns where the broker reads past them.
pub record Batch : Type 0 where
  pub base_offset : ℕ
  pub batch_length : ℕ
  pub leader_epoch : ℕ
  pub crc : ℕ
  pub attributes : ℕ
  pub last_offset_delta : ℕ
  pub base_timestamp : ℤ
  pub max_timestamp : ℕ
  pub producer_id : ℕ
  pub producer_epoch : ℕ
  pub base_sequence : ℕ
  pub records : List Record

pub record Partition : Type 0 where
  pub index : ℤ
  pub size : ℕ
  pub batch : Batch

pub record Topic : Type 0 where
  pub name : Bytes
  pub partitions : List Partition

pub record Request : Type 0 where
  pub transactional_id : Option Bytes
  pub acks : ℕ
  pub timeout : ℕ
  pub topics : List Topic

abbrev pub encode_string : Bytes → Bytes
encode_string s = be16 (uint16 (pos (length s))) ++ s

-- The null string has length -1.
abbrev pub encode_nullable : Option Bytes → Bytes
encode_nullable none = be16 (uint16 (negsuc 0))
encode_nullable (some s) = encode_string s

abbrev pub encode_count : ℕ → Bytes
encode_count n = be32 (uint32 (pos n))

abbrev pub encode_varint : ℤ → Bytes
encode_varint z = put_uvarint (zigzag z)

abbrev pub encode_var_bytes : Bytes → Bytes
encode_var_bytes b = encode_varint (pos (length b)) ++ b

abbrev pub encode_header : Bytes × Bytes → Bytes
encode_header (k, v) = encode_var_bytes k ++ encode_var_bytes v

unfoldable pub encode_record : Record → Bytes
encode_record rec =
    encode_varint rec.size
    ++ ((uint8 rec.attributes ∷ [])
        ++ (encode_varint rec.timestamp_delta
            ++ (encode_varint rec.offset_delta
                ++ (encode_var_bytes rec.key
                    ++ (encode_var_bytes rec.value
                        ++ (encode_varint (pos (length rec.headers))
                            ++ concat_map encode_header rec.headers))))))

-- A batch up to its magic byte.
abbrev pub encode_start : Batch → Bytes
encode_start b =
    be64 b.base_offset ++ (be32 b.batch_length ++ (be32 b.leader_epoch ++ (uint8 (pos 2) ∷ [])))

-- The rest of a batch as the decoder takes it: Kafka's layout without the field `crc`.
abbrev pub encode_rest : Batch → Bytes
encode_rest b =
    be16 b.attributes
    ++ (be32 b.last_offset_delta
        ++ (be64 (uint64 b.base_timestamp)
            ++ (be64 b.max_timestamp
                ++ (be64 b.producer_id
                    ++ (be16 b.producer_epoch
                        ++ (be32 b.base_sequence
                            ++ (encode_count (length b.records)
                                ++ concat_map encode_record b.records)))))))

unfoldable pub encode_batch : Batch → Bytes
encode_batch b = encode_start b ++ encode_rest b

-- The batch in Kafka's layout, in which the checksum stands behind the magic byte.
unfoldable pub kafka_batch : Batch → Bytes
kafka_batch b = encode_start b ++ (be32 b.crc ++ encode_rest b)

-- A request, over the layout of its batches.
module _ (layout : Batch → Bytes) where
  unfoldable pub encode_partition : Partition → Bytes
  encode_partition p = be32 (uint32 p.index) ++ (be32 p.size ++ layout p.batch)

  unfoldable pub encode_topic : Topic → Bytes
  encode_topic t =
      encode_string t.name
      ++ (encode_count (length t.partitions) ++ concat_map encode_partition t.partitions)

  unfoldable pub encode_request : Request → Bytes
  encode_request q =
      encode_nullable q.transactional_id
      ++ (be16 q.acks
          ++ (be32 q.timeout
              ++ (encode_count (length q.topics) ++ concat_map encode_topic q.topics)))

-- The values fit into their fields.
abbrev pub HeaderFits : Bytes × Bytes → Type 0
HeaderFits (k, v) = (length k < 2 ^ 63) × (length v < 2 ^ 63)

pub record RecordFits (rec : Record) : Type 0 where
  pub size : InRange (2 ^ 63) rec.size
  pub attributes : InRange (2 ^ 7) rec.attributes
  pub timestamp_delta : InRange (2 ^ 63) rec.timestamp_delta
  pub offset_delta : InRange (2 ^ 63) rec.offset_delta
  pub key : length rec.key < 2 ^ 63
  pub value : length rec.value < 2 ^ 63
  pub count : length rec.headers < 2 ^ 63
  pub headers : All HeaderFits rec.headers

pub record BatchFits (b : Batch) : Type 0 where
  pub base_timestamp : InRange (2 ^ 63) b.base_timestamp
  pub count : length b.records < 2 ^ 31
  pub records : All RecordFits b.records

pub record PartitionFits (p : Partition) : Type 0 where
  pub index : InRange (2 ^ 31) p.index
  pub batch : BatchFits p.batch

pub record TopicFits (t : Topic) : Type 0 where
  pub name : length t.name < 2 ^ 15
  pub count : length t.partitions < 2 ^ 31
  pub partitions : All PartitionFits t.partitions

abbrev pub NullableFits : Option Bytes → Type 0
NullableFits none = Unit
NullableFits (some s) = length s < 2 ^ 15

pub record RequestFits (q : Request) : Type 0 where
  pub transactional_id : NullableFits q.transactional_id
  pub count : length q.topics < 2 ^ 31
  pub topics : All TopicFits q.topics

-- The messages that a request stands for, in its order.
abbrev pub record_message : Bytes → ℤ → ℤ → Record → Message
record_message topic partition ms rec = record {
  topic = topic;
  partition = partition;
  key = rec.key;
  value = rec.value;
  timestamp = unix_milli ms;
}

abbrev pub partition_messages : Bytes → Partition → List Message
partition_messages topic p =
    map (record_message topic p.index p.batch.base_timestamp) p.batch.records

abbrev pub topic_messages : Topic → List Message
topic_messages t = concat (map (partition_messages t.name) t.partitions)

abbrev pub request_messages : Request → List Message
request_messages q = concat (map topic_messages q.topics)
