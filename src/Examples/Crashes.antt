-- ===== src/Examples/Crashes.antt =====
-- Requests that make the broker panic.
use ome_kafka_bridge.Common.{◌^◌, ◌<◌, ◌≡◌, refl, arith, some, [], ◌++◌, Bytes, codes, length, pos}
use ome_kafka_bridge.Common.{uint8, uint16, uint32}
use ome_kafka_bridge.Binary.{be16, be32, be64, put_uvarint, put_uvarint_loop}
use ome_kafka_bridge.Binary.Varint.{zigzag}
use ome_kafka_bridge.Broker.Outcome.{panic}
use ome_kafka_bridge.Broker.Produce.Encoding.{
  encode_request, encode_topic, encode_partition, encode_record, kafka_batch,
}
use ome_kafka_bridge.Broker.Request.{Header, is_flexible_version, handle_request}
use ome_kafka_bridge.Broker.Request.Overflow.{encode_long_header, handle_request-overflow}
use ome_kafka_bridge.Broker.Request.Whole.{encode_header}
use ome_kafka_bridge.Broker.Request.Produce.{produce_header}
use ome_kafka_bridge.Broker.Request.Crash.{IsPlainRequest, handle_request-crash}
use ome_kafka_bridge.Examples.{broker}
use ome_kafka_bridge.Examples.Requests.{topic, partition, request}

abbrev kafka_body : Bytes
kafka_body =
    encode_header (produce_header (pos 3) (pos 7)) (some (codes "ome"))
    ++ encode_request kafka_batch request

kafka_body-short : length kafka_body < 2 ^ 63
unfolding encode_request encode_topic encode_partition kafka_batch encode_record put_uvarint
    put_uvarint_loop be16 be32 be64 uint8 uint16 uint32 zigzag
kafka_body-short = omega arith

request-IsPlainRequest : IsPlainRequest request topic [] partition []
request-IsPlainRequest = record {
  topics = refl;
  count = omega arith;
  transactional_id = tt;
  topic = record {
    partitions = refl;
    count = omega arith;
    name = omega arith;
    batch = record { low = omega arith; high = omega arith };
  };
}

handle_request-crash_example : handle_request (λ ts. ts) broker kafka_body ≡ panic
handle_request-crash_example =
    handle_request-crash (λ ts. ts) broker (pos 3) (pos 7) (some (codes "ome")) request topic []
      partition [] (omega arith) (omega arith) refl (omega arith) request-IsPlainRequest
      kafka_body-short

abbrev long_header : Header
long_header = record { api_key = pos 3; api_version = pos 9; correlation_id = pos 1 }

long_header-short : length (encode_long_header long_header ++ []) < 2 ^ 63
unfolding put_uvarint put_uvarint_loop be16 be32 uint16 uint32
long_header-short = omega arith

-- The request has 18 bytes.
long_header-length : length (encode_long_header long_header) ≡ 18
unfolding put_uvarint put_uvarint_loop be16 be32 uint16 uint32
long_header-length = refl

handle_request-overflow_example :
    handle_request (λ ts. ts) broker (encode_long_header long_header ++ []) ≡ panic
unfolding is_flexible_version
handle_request-overflow_example =
    handle_request-overflow (λ ts. ts) broker long_header [] (omega arith) (omega arith)
      (omega arith) refl long_header-short
