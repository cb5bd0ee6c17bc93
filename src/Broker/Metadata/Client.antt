-- ===== src/Broker/Metadata/Client.antt =====
-- What a client reads from the answer to a metadata request, as the Kafka protocol describes it for
-- versions 3 to 8.
use ome_kafka_bridge.Common.{
  ℕ, Bool, leb, if◌then◌else◌, List, [], ◌∷◌, map, Bytes, codes, ℤ, pos, pos_part,
}
use ome_kafka_bridge.Config.{KafkaConfig, text_or, int_or}
use ome_kafka_bridge.Broker.Reader.{
  Read, ◌>>=◌, ◌>>◌, pure, read_int8, read_int16, read_int32, read_string,
}
use ome_kafka_bridge.Broker.Metadata.{port32}
use ome_kafka_bridge.Broker.Metadata.Request.{repeat}

pub record PartitionInfo : Type 0 where
  pub error_code : ℤ
  pub index : ℤ
  pub leader : ℤ
  pub replicas : List ℤ
  pub isr : List ℤ

pub record TopicInfo : Type 0 where
  pub error_code : ℤ
  pub name : Bytes
  pub is_internal : ℤ
  pub partitions : List PartitionInfo

pub record BrokerInfo : Type 0 where
  pub node_id : ℤ
  pub host : Bytes
  pub port : ℤ

pub record MetadataInfo : Type 0 where
  pub correlation_id : ℤ
  pub brokers : List BrokerInfo
  pub controller_id : ℤ
  pub topics : List TopicInfo

-- A field that only some versions have, read and dropped.
unfoldable pub read_when {ℓ} : {A : Type ℓ} → Bool → Read A → Read (Unit {0})
read_when b p = if b then (do p; pure tt) else pure tt

abbrev pub read_array {ℓ} : {A : Type ℓ} → Read A → Read (List A)
read_array p = do n ← read_int32; repeat (pos_part n) p

unfoldable pub read_broker : Read BrokerInfo
read_broker = do
  node ← read_int32
  host ← read_string
  port ← read_int32
  read_string
  pure (record { node_id = node; host = host; port = port })

module _ (version : ℕ) where
  unfoldable pub read_partition : Read PartitionInfo
  unfolding repeat read_when
  read_partition = do
    code ← read_int16
    index ← read_int32
    leader ← read_int32
    read_when (leb 7 version) read_int32
    replicas ← read_array read_int32
    isr ← read_array read_int32
    read_when (leb 5 version) (read_array read_int32)
    pure (record {
      error_code = code;
      index = index;
      leader = leader;
      replicas = replicas;
      isr = isr;
    })

  unfoldable pub read_topic_info : Read TopicInfo
  unfolding read_partition
  read_topic_info = do
    code ← read_int16
    name ← read_string
    internal ← read_int8
    partitions ← read_array read_partition
    read_when (leb 8 version) read_int32
    pure
        (record { error_code = code; name = name; is_internal = internal; partitions = partitions })

  unfoldable pub read_metadata : Read MetadataInfo
  unfolding read_topic_info read_broker
  read_metadata = do
    corr ← read_int32
    read_int32
    brokers ← read_array read_broker
    read_string
    controller ← read_int32
    topics ← read_array read_topic_info
    read_when (leb 8 version) read_int32
    pure (record {
      correlation_id = corr;
      brokers = brokers;
      controller_id = controller;
      topics = topics;
    })

-- The one partition that every topic has, led and held by broker 1.
abbrev pub only_partition : PartitionInfo
only_partition = record {
  error_code = pos 0;
  index = pos 0;
  leader = pos 1;
  replicas = pos 1 ∷ [];
  isr = pos 1 ∷ [];
}

abbrev pub topic_info : Bytes → TopicInfo
topic_info t = record {
  error_code = pos 0;
  name = t;
  is_internal = pos 0;
  partitions = only_partition ∷ [];
}

abbrev pub metadata_info : KafkaConfig → List Bytes → ℤ → MetadataInfo
metadata_info c topics corr = record {
  correlation_id = corr;
  brokers =
      (record {
        node_id = pos 1;
        host = text_or c.advertised_host (codes "localhost");
        port = port32 (int_or c.advertised_port (pos 9092));
      })
      ∷ [];
  controller_id = pos 1;
  topics = map topic_info topics;
}
