-- ===== src/Examples/Answers.antt =====
-- The answers of the broker, the numbers on the wire and the parts of its state.
use ome_kafka_bridge.Common.{◌^◌, ◌<◌, ◌≡◌, refl, arith, [], ◌∷◌, Bytes, length, pos}
use ome_kafka_bridge.Binary.{be16, be32, put_uvarint, put_uvarint_loop}
use ome_kafka_bridge.Broker.Outcome.{done}
use ome_kafka_bridge.Broker.Reader.{advance}
use ome_kafka_bridge.Broker.Reader.Parses.{start}
use ome_kafka_bridge.Common.{All}
use ome_kafka_bridge.Config.{text_or, int_or}
use ome_kafka_bridge.Broker.Writer.{
  write_each, write_int32, write_int16, write_uvarint, write_string, write_raw, write_bool,
  write_int8, ◌>>◌, skip,
}
use ome_kafka_bridge.Broker.ApiVersions.{write_entry, write_flexible_entry, api_versions_response}
use ome_kafka_bridge.Broker.ApiVersions.Client.{
  answer, read_answer, read_answer-api_versions_response,
}
use ome_kafka_bridge.Broker.Metadata.{
  metadata_response, write_brokers, write_topic, write_partition,
}
use ome_kafka_bridge.Broker.Metadata.Client.{metadata_info, read_metadata}
use ome_kafka_bridge.Broker.Metadata.Answer.{host_of, TopicFits, read_metadata-metadata_response}
use ome_kafka_bridge.Examples.{telemetry, alerts, kafka_config}

abbrev metadata : Bytes
metadata = metadata_response (pos 8) kafka_config (telemetry ∷ alerts ∷ []) (pos 9) []

metadata-short : length metadata < 2 ^ 63
unfolding metadata_response write_brokers write_topic write_partition write_each write_int32
    write_int16 write_uvarint write_string write_raw write_bool write_int8 ◌>>◌ skip be16 be32
    text_or int_or
metadata-short = omega arith

host-short : length (host_of kafka_config) < 2 ^ 15
unfolding text_or
host-short = omega arith

-- Neither name is empty.
names : All TopicFits (telemetry ∷ alerts ∷ [])
names = ((λ e. cc, omega arith), ((λ e. cc, omega arith), tt))

read_metadata-metadata_response_example :
    read_metadata 8 (start metadata)
    ≡ done (
      metadata_info kafka_config (telemetry ∷ alerts ∷ []) (pos 9),
      advance (length metadata) (start metadata),
    )
read_metadata-metadata_response_example =
    read_metadata-metadata_response 8 kafka_config (telemetry ∷ alerts ∷ []) (pos 9)
      (record { low = omega arith; high = omega arith }) host-short (omega arith) (omega arith)
      names metadata-short

abbrev versions : Bytes
versions = api_versions_response (pos 4) (pos 3) []

versions-short : length versions < 2 ^ 63
unfolding api_versions_response write_flexible_entry write_entry write_each write_int32 write_int16
    write_uvarint ◌>>◌ skip be16 be32 put_uvarint put_uvarint_loop
versions-short = omega arith

read_answer-api_versions_response_example :
    read_answer (pos 3) (start versions)
    ≡ done (answer (pos 4), advance (length versions) (start versions))
read_answer-api_versions_response_example =
    read_answer-api_versions_response (pos 4) (pos 3) (omega arith) refl versions-short

-- Two bytes of seven bits each.
put_uvarint_bytes : put_uvarint 300 ≡ 172 ∷ 2 ∷ []
unfolding put_uvarint put_uvarint_loop
put_uvarint_bytes = refl
