-- ===== src/Broker/Metadata/Answer.antt =====
-- The answer to a metadata request, as handleMetadata of broker.go writes it, is what the client's
-- reading of it needs.
use ome_kafka_bridge.Common.{
  ℕ, ◌^◌, ◌<◌, ◌≤◌, ◌≡◌, ◌≢◌, arith, Bool, true, false, leb, if◌then◌else◌, List, [], ◌∷◌, ◌++◌,
  map, none, Bytes, codes, length, All, ℤ, pos, negsuc, InRange, int32, int32-InRange, uint8,
  uint16, uint32,
}
use ome_kafka_bridge.Binary.{be16, be32}
use ome_kafka_bridge.Config.Defaults.{text_or-ne}
use ome_kafka_bridge.Config.{KafkaConfig, text_or, int_or}
use ome_kafka_bridge.Broker.Reader.{Read, ◌>>=◌, read_int32}
use ome_kafka_bridge.Broker.Outcome.{done}
use ome_kafka_bridge.Broker.Reader.{advance}
use ome_kafka_bridge.Broker.Reader.Parses.{start, Parses-whole}
use ome_kafka_bridge.Broker.Reader.Parses.{
  Parses, Parses-pure, Parses-bind, Parses-then, Parses-read_int8, Parses-read_int16,
  Parses-read_int32, Parses-read_string,
}
use ome_kafka_bridge.Broker.Writer.{Write, int32_of}
use ome_kafka_bridge.Broker.Writer.Appends.{
  Appends, Appends-skip, Appends-then, Appends-bool, Appends-int16, Appends-int32, Appends-string,
  Appends-each, concat_map,
}
use ome_kafka_bridge.Broker.ApiVersions.Client.{Parses-written}
use ome_kafka_bridge.Broker.Produce.Encoding.{encode_string}
use ome_kafka_bridge.Broker.Produce.RoundTrip.{Parses-read_nullable}
use ome_kafka_bridge.Broker.Metadata.{
  when, write_partition, write_topic, write_brokers, metadata_response, port32,
}
use ome_kafka_bridge.Broker.Metadata.Request.{repeat}
use ome_kafka_bridge.Broker.Metadata.Client.{
  read_when, read_array, read_partition, read_topic_info, read_broker, read_metadata,
  only_partition, topic_info, metadata_info,
}

Parses-when {ℓ} :
    {A : Type ℓ} (b : Bool) {p : Read A} {e : Bytes} {x : A}
    → Parses p e x
    → Parses (read_when b p) (if b then e else []) tt
unfolding read_when
Parses-when true h = Parses-then (λ _. tt) h
Parses-when false h = Parses-pure tt

Appends-when :
    (b : Bool) {f : Write} {e : Bytes} → Appends f e → Appends (when b f) (if b then e else [])
Appends-when true h = h
Appends-when false h = Appends-skip

Parses-one {ℓ} :
    {A : Type ℓ} (p : Read A) {e : Bytes} {x : A} → Parses p e x → Parses (repeat 1 p) e (x ∷ [])
unfolding repeat ◌>>=◌
Parses-one p h = Parses-then (λ x. x ∷ []) h

pub record IsPlainVersion (n : ℕ) : Type 0 where
  pub low : 3 ≤ n
  pub high : n ≤ 8

abbrev zero_bytes : Bytes
zero_bytes = be32 (uint32 (pos 0))

abbrev one_bytes : Bytes
one_bytes = be32 (uint32 (pos 1))

module _ (n : ℕ) (v : IsPlainVersion n) where
  old : leb 9 n ≡ false
  old = ground (arith, v.high)

  abbrev partition_bytes : Bytes
  partition_bytes =
      be16 (uint16 (pos 0))
      ++ (zero_bytes
          ++ (one_bytes
              ++ ((if leb 7 n then zero_bytes else [])
                  ++ (one_bytes
                      ++ (one_bytes
                          ++ (one_bytes
                              ++ (one_bytes ++ ((if leb 5 n then zero_bytes else []) ++ []))))))))

  Appends-partition : Appends (write_partition (pos n)) (one_bytes ++ partition_bytes)
  unfolding write_partition
  Appends-partition = rw old (
      Appends-then (Appends-int32 _) (
        Appends-then (Appends-int16 _) (
          Appends-then (Appends-int32 _) (
            Appends-then (Appends-int32 _) (
              Appends-then (Appends-when (leb 7 n) (Appends-int32 _)) (
                Appends-then (Appends-int32 _) (
                  Appends-then (Appends-int32 _) (
                    Appends-then (Appends-int32 _) (
                      Appends-then (Appends-int32 _) (
                        Appends-then (Appends-when (leb 5 n) (Appends-int32 _))
                          Appends-skip))))))))))

  Parses-partition : Parses (read_partition n) partition_bytes only_partition
  unfolding read_partition be32
  Parses-partition = Parses-bind _ (Parses-read_int16 (pos 0) (omega arith)) (
      Parses-bind _ (Parses-read_int32 (pos 0) (omega arith)) (
        Parses-bind _ (Parses-read_int32 (pos 1) (omega arith)) (
          Parses-bind _ (Parses-when (leb 7 n) (Parses-read_int32 (pos 0) (omega arith))) (
            Parses-bind _ ones (
              Parses-bind _ ones (
                Parses-bind _
                  (Parses-when (leb 5 n)
                    (Parses-bind _ (Parses-read_int32 (pos 0) (omega arith)) (Parses-pure [])))
                  (Parses-pure _)))))))
    where
      ones : Parses (read_array read_int32) (one_bytes ++ one_bytes) (pos 1 ∷ [])
      ones =
          Parses-bind _ (Parses-read_int32 (pos 1) (omega arith))
            (Parses-one read_int32 (Parses-read_int32 (pos 1) (omega arith)))

  some_version : leb 1 n ≡ true
  some_version = ground (arith, v.low)

  abbrev topic_bytes : Bytes → Bytes
  topic_bytes t =
      be16 (uint16 (pos 0))
      ++ (encode_string t
          ++ ((0 ∷ [])
              ++ ((one_bytes ++ partition_bytes)
                  ++ ((if leb 8 n then be32 (uint32 (negsuc 2147483647)) else []) ++ []))))

  Appends-topic :
      (t : Bytes) → t ≢ [] → length t < 2 ^ 15 → Appends (write_topic (pos n) t) (topic_bytes t)
  unfolding write_topic
  Appends-topic t ne short =
      rw (old, some_version)
        (Appends-then (Appends-int16 _) (
          Appends-then (Appends-string t ne short) (
            Appends-then Appends-skip (
              Appends-then (Appends-bool false) (
                Appends-then Appends-partition
                  (Appends-then (Appends-when (leb 8 n) (Appends-int32 _)) Appends-skip))))))

  Parses-topic :
      (t : Bytes) → length t < 2 ^ 15 → Parses (read_topic_info n) (topic_bytes t) (topic_info t)
  unfolding read_topic_info uint8
  Parses-topic t short = Parses-bind _ (Parses-read_int16 (pos 0) (omega arith)) (
      Parses-bind _ (Parses-read_string t short) (
        Parses-bind _ (Parses-read_int8 (pos 0) (omega arith)) (
          Parses-bind _
            (Parses-bind _ (Parses-read_int32 (pos 1) (omega arith))
              (Parses-one _ Parses-partition))
            (Parses-bind _
              (Parses-when (leb 8 n) (Parses-read_int32 (negsuc 2147483647) (omega arith)))
              (Parses-pure _)))))

abbrev pub TopicFits : Bytes → Type 0
TopicFits t = (t ≢ []) × (length t < 2 ^ 15)

-- The name that the broker gives for itself.
abbrev pub host_of : KafkaConfig → Bytes
host_of c = text_or c.advertised_host (codes "localhost")

abbrev pub port_of : KafkaConfig → ℤ
port_of c = port32 (int_or c.advertised_port (pos 9092))

port_of-InRange : (c : KafkaConfig) → InRange (2 ^ 31) (port_of c)
port_of-InRange c = int32-InRange _

-- `localhost` stands in for an empty name.
host_of-ne : (c : KafkaConfig) → host_of c ≢ []
host_of-ne c = text_or-ne c.advertised_host (codes "localhost") (λ e. cc)

module _ (n : ℕ) (v : IsPlainVersion n) (c : KafkaConfig)
    (short : length (host_of c) < 2 ^ 15) where
  abbrev broker_bytes : Bytes
  broker_bytes =
      one_bytes
      ++ (one_bytes
          ++ (encode_string (host_of c) ++ (be32 (uint32 (port_of c)) ++ be16 (uint16 (negsuc 0)))))

  Appends-brokers : Appends (write_brokers (pos n) c) broker_bytes
  unfolding write_brokers
  Appends-brokers = rw (old n v) (
      Appends-then (Appends-int32 _) (
        Appends-then (Appends-int32 _) (
          Appends-then (Appends-string (host_of c) (host_of-ne c) short)
            (Appends-then (Appends-int32 _) (Appends-int16 _)))))

  Parses-broker :
      Parses (read_array read_broker) broker_bytes ((metadata_info c [] (pos 0)).brokers)
  unfolding read_broker
  Parses-broker = Parses-bind _ (Parses-read_int32 (pos 1) (omega arith)) (
      Parses-one _ (
        Parses-bind _ (Parses-read_int32 (pos 1) (omega arith)) (
          Parses-bind _ (Parses-read_string (host_of c) short) (
            Parses-bind _ (Parses-read_int32 (port_of c) (port_of-InRange c))
              (Parses-then _ (Parses-read_nullable none tt))))))

  int32_of-small : (k : ℕ) → k < 2 ^ 31 → int32_of k ≡ pos k
  unfolding int32
  int32_of-small k h = ground arith

  two_versions : leb 2 n ≡ true
  two_versions = ground (arith, v.low)

  Parses-topics :
      (topics : List Bytes)
      → All TopicFits topics
      → Parses
          (repeat (length topics) (read_topic_info n))
          (concat_map (topic_bytes n v) topics)
          (map topic_info topics)
  unfolding repeat
  Parses-topics [] h = Parses-pure []
  Parses-topics (t ∷ ts) ((_, ht), h) =
      Parses-bind _ (Parses-topic n v t ht) (Parses-then _ (Parses-topics ts h))

  Parses-read_metadata :
      (topics : List Bytes) (corr : ℤ)
      → InRange (2 ^ 31) corr
      → length topics < 2 ^ 31
      → All TopicFits topics
      → Parses
          (read_metadata n)
          (metadata_response (pos n) c topics corr [])
          (metadata_info c topics corr)
  unfolding metadata_response read_metadata be32 be16
  Parses-read_metadata topics corr hc count h =
      rw (old n v, some_version n v, two_versions, int32_of-small (length topics) count)
        (Parses-written
          (Appends-then (Appends-int32 corr) (
            Appends-then Appends-skip (
              Appends-then (Appends-int32 (pos 0)) (
                Appends-then Appends-brokers (
                  Appends-then (Appends-int16 (negsuc 0)) (
                    Appends-then (Appends-int32 (pos 1)) (
                      Appends-then (Appends-int32 (pos (length topics))) (
                        Appends-then
                          (Appends-each TopicFits (write_topic (pos n)) (topic_bytes n v) topics
                            (λ t (ne, ht). Appends-topic n v t ne ht) h)
                          (Appends-then (Appends-when (leb 8 n) (Appends-int32 (pos 0)))
                            Appends-skip)))))))))
          (Parses-bind _ (Parses-read_int32 corr hc) (
            Parses-bind _ (Parses-read_int32 (pos 0) (omega arith)) (
              Parses-bind _ Parses-broker (
                Parses-bind _ (Parses-read_nullable none tt) (
                  Parses-bind _ (Parses-read_int32 (pos 1) (omega arith)) (
                    Parses-bind _
                      (Parses-bind _ (Parses-read_int32 (pos (length topics)) count)
                        (Parses-topics topics h))
                      (Parses-bind _
                        (Parses-when (leb 8 n) (Parses-read_int32 (pos 0) (omega arith)))
                        (Parses-pure _)))))))))

-- A client that reads the answer to a metadata request of version 3 to 8 gets this broker, with its
-- advertised name and port and their defaults, as the only broker and the controller, and every
-- topic that was listed, in that order, with one partition that this broker leads; and it has read
-- every byte. The names of the broker and the topics are shorter than 2 ^ 15, and no topic's name is
-- empty.
pub read_metadata-metadata_response :
    (n : ℕ) (c : KafkaConfig) (topics : List Bytes) (corr : ℤ)
    → IsPlainVersion n
    → length (host_of c) < 2 ^ 15
    → InRange (2 ^ 31) corr
    → length topics < 2 ^ 31
    → All TopicFits topics
    → length (metadata_response (pos n) c topics corr []) < 2 ^ 63
    → read_metadata n (start (metadata_response (pos n) c topics corr []))
      ≡ done (
        metadata_info c topics corr,
        advance
            (length (metadata_response (pos n) c topics corr []))
            (start (metadata_response (pos n) c topics corr [])),
      )
read_metadata-metadata_response n c topics corr v short hc count h whole =
    Parses-whole (Parses-read_metadata n v c short topics corr hc count h) whole
