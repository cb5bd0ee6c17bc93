-- ===== src/Broker/Produce/Checksum.antt =====
-- The decoder on batches in Kafka's own layout: it reads no checksum, so every field behind the
-- magic byte is read four bytes too early, and the base sequence is taken for the record count.
use ome_kafka_bridge.Common.{
  ℕ, ◌%◌, ◌^◌, ◌<◌, ◌≤◌, arith, le→ltb, List, [], ◌++◌, Bytes, length, length-append, ℤ, int32,
  uint64,
}
use ome_kafka_bridge.Binary.{be16, be32, be64}
use ome_kafka_bridge.Binary.Fixed.{length-be64, length-be32}
use ome_kafka_bridge.Broker.Reader.{Read, ◌>>=◌, remaining}
use ome_kafka_bridge.Broker.Reader.View.{IsAt-length}
use ome_kafka_bridge.Broker.Reader.Parses.{
  Parses-read_int16_bytes, Parses-read_int32_bytes, Parses-read_int64_bytes, Parses-read_int32_any,
}
use ome_kafka_bridge.Broker.Reader.Panics.{Panics, Panics-after, Panics-longer}
use ome_kafka_bridge.Broker.Records.{make_messages, decode_record_batch_v2, decode_record_batch}
use ome_kafka_bridge.Broker.State.{Message}
use ome_kafka_bridge.Broker.Produce.Encoding.{Batch, encode_count, encode_record, kafka_batch}
use ome_kafka_bridge.Broker.Produce.RoundTrip.{Parses-read_magic}
use ome_kafka_bridge.Broker.Writer.Appends.{concat_map}

length-kafka_batch : (b : Batch) → 17 ≤ length (kafka_batch b)
unfolding kafka_batch
length-kafka_batch b = simp (length-append, length-be64, length-be32) (omega arith)

-- The fields behind the magic byte, up to the base sequence.
abbrev tail_fields : Batch → Bytes → Bytes
tail_fields b rest =
    be32 b.crc
    ++ (be16 b.attributes
        ++ (be32 b.last_offset_delta
            ++ (be64 (uint64 b.base_timestamp)
                ++ (be64 b.max_timestamp
                    ++ (be64 b.producer_id ++ (be16 b.producer_epoch ++ rest))))))

-- A record count that is read as negative.
Panics-negative :
    (n : ℕ)
    → 2 ^ 31 ≤ n
    → n < 2 ^ 32
    → (f : List Message → Read (List Message))
    → Panics (make_messages (int32 (n % 2 ^ 32)) >>= f) []
unfolding make_messages int32 ◌>>=◌
Panics-negative n lo hi f = record { runs = λ r s at. ground arith }

Panics-v2 :
    (topic : Bytes) (partition : ℤ) (b : Batch)
    → 2 ^ 31 ≤ b.base_sequence
    → b.base_sequence < 2 ^ 32
    → Panics (decode_record_batch_v2 topic partition) (tail_fields b (be32 b.base_sequence))
unfolding decode_record_batch_v2 be64 be32 be16
Panics-v2 topic partition b lo hi = Panics-after _ (Parses-read_int16_bytes _ _) (
    Panics-after _ (Parses-read_int32_bytes _ _ _ _) (
      Panics-after _ (Parses-read_int64_bytes _ _ _ _ _ _ _ _) (
        Panics-after _ (Parses-read_int64_bytes _ _ _ _ _ _ _ _) (
          Panics-after _ (Parses-read_int64_bytes _ _ _ _ _ _ _ _) (
            Panics-after _ (Parses-read_int16_bytes _ _) (
              Panics-after _ (Parses-read_int32_bytes _ _ _ _) (
                Panics-after _ (Parses-read_int32_any b.base_sequence)
                  (Panics-negative b.base_sequence lo hi _))))))))

-- A batch in Kafka's layout whose base sequence is negative, as every batch of a producer that is
-- not idempotent, makes the decoder panic.
pub Panics-decode_record_batch :
    (topic : Bytes) (partition : ℤ) (b : Batch)
    → 2 ^ 31 ≤ b.base_sequence
    → b.base_sequence < 2 ^ 32
    → Panics (decode_record_batch topic partition) (kafka_batch b)
Panics-decode_record_batch topic partition b lo hi = record {
  runs = λ r s at.
      let long : 17 ≤ remaining r =
        omega (arith, IsAt-length at, length-append (kafka_batch b) s, length-kafka_batch b) in
      unfold decode_record_batch in
      rw (le→ltb (remaining r) 17 long) (
        (Panics-after _ (Parses-read_magic b) (
            Panics-longer (encode_count (length b.records) ++ concat_map encode_record b.records)
              (Panics-v2 topic partition b lo hi))).runs
          r s (unfold kafka_batch be64 be32 be16 in at));
}
