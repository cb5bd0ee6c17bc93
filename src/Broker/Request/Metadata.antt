-- ===== src/Broker/Request/Metadata.antt =====
-- Whole metadata requests of the versions that are not flexible.
use ome_kafka_bridge.Common.{at_least}
use ome_kafka_bridge.Common.{
  ◌^◌, ◌<◌, ◌≡◌, arith, false, if◌then◌else◌, List, [], ◌++◌, Bytes, length, All, ℤ, pos, InRange,
  Option, some,
}
use ome_kafka_bridge.Broker.Outcome.{done}
use ome_kafka_bridge.Broker.Reader.Parses.{Parses, Parses-then}
use ome_kafka_bridge.Broker.State.{Broker}
use ome_kafka_bridge.Broker.Metadata.{create_topics, metadata_response}
use ome_kafka_bridge.Broker.Metadata.Topics.{NameFits, encode_topics, Parses-read_topics}
use ome_kafka_bridge.Broker.Request.{Header, is_flexible_version, dispatch, handle_request}
use ome_kafka_bridge.Broker.Request.Whole.{encode_header, HeaderFits, handle_request-Parses}
use ome_kafka_bridge.Broker.Produce.Encoding.{NullableFits}

abbrev pub metadata_header : ℤ → ℤ → Header
metadata_header version corr = record {
  api_key = pos 3;
  api_version = version;
  correlation_id = corr;
}

metadata_header-Fits :
    (version corr : ℤ)
    → InRange (2 ^ 15) version
    → InRange (2 ^ 31) corr
    → at_least 9 version ≡ false
    → HeaderFits (metadata_header version corr)
unfolding is_flexible_version
metadata_header-Fits version corr hv hc plain = record {
  api_key = omega arith;
  api_version = hv;
  correlation_id = hc;
  plain = plain;
}

-- The topic set that a request for `ts` leaves.
abbrev pub topics_after : Broker → List Bytes → List Bytes
topics_after b ts = if b.cfg.auto_create_topics then create_topics b.topic_set ts else b.topic_set

module _ (order : List Bytes → List Bytes) (b : Broker) (version corr : ℤ) (client : Option Bytes)
    (ts : List Bytes) where
  Parses-dispatch :
      at_least 9 version ≡ false
      → length ts < 2 ^ 31
      → All NameFits ts
      → Parses (dispatch order b (metadata_header version corr)) (encode_topics false ts) (
        metadata_response version b.cfg (order (topics_after b ts)) corr [],
        record b { topic_set = topics_after b ts },
      )
  unfolding dispatch
  Parses-dispatch plain count h = rw plain (Parses-then _ (Parses-read_topics false ts count h))

  -- A metadata request of a version that is not flexible, for any topics: the answer is the
  -- metadata response over the topic set as the request leaves it, and nothing else of the broker
  -- changes. The set gains the topics of the request only if auto_create_topics is set.
  pub handle_request-metadata :
      InRange (2 ^ 15) version
      → InRange (2 ^ 31) corr
      → at_least 9 version ≡ false
      → NullableFits client
      → length ts < 2 ^ 31
      → All NameFits ts
      → length (encode_header (metadata_header version corr) client ++ encode_topics false ts)
        < 2 ^ 63
      → handle_request order b
          (encode_header (metadata_header version corr) client ++ encode_topics false ts)
        ≡ done (
          some (metadata_response version b.cfg (order (topics_after b ts)) corr []),
          record b { topic_set = topics_after b ts },
        )
  handle_request-metadata hv hc plain hn count h short =
      handle_request-Parses order b (metadata_header version corr) client
        (metadata_header-Fits version corr hv hc plain) hn (Parses-dispatch plain count h) short
