-- ===== src/Broker/Request/Produce.antt =====
-- Whole produce requests, from the bytes of the body to the answer and the channel.
use ome_kafka_bridge.Common.{at_least}
use ome_kafka_bridge.Common.{
  ◌-◌, ◌^◌, ◌<◌, ◌≤◌, ◌≡◌, arith, false, List, [], ◌++◌, Bytes, length, take, ℤ, pos, InRange,
  Option, some,
}
use ome_kafka_bridge.Broker.Outcome.{done}
use ome_kafka_bridge.Broker.Reader.Parses.{Parses, Parses-then}
use ome_kafka_bridge.Broker.State.{Broker, capacity, send_all}
use ome_kafka_bridge.Broker.State.Channel.{send_all-eq-take}
use ome_kafka_bridge.Broker.Request.{Header, is_flexible_version, dispatch, handle_request}
use ome_kafka_bridge.Broker.Request.Whole.{encode_header, HeaderFits, handle_request-Parses}
use ome_kafka_bridge.Broker.Produce.Response.{produce_response}
use ome_kafka_bridge.Broker.Produce.Encoding.{
  Request, RequestFits, NullableFits, encode_request, encode_batch, request_messages,
}
use ome_kafka_bridge.Broker.Produce.RoundTrip.{Parses-read_produce}

abbrev pub produce_header : ℤ → ℤ → Header
produce_header version corr = record {
  api_key = pos 0;
  api_version = version;
  correlation_id = corr;
}

pub produce_header-Fits :
    (version corr : ℤ)
    → InRange (2 ^ 15) version
    → InRange (2 ^ 31) corr
    → at_least 9 version ≡ false
    → HeaderFits (produce_header version corr)
unfolding is_flexible_version
produce_header-Fits version corr hv hc plain = record {
  api_key = omega arith;
  api_version = hv;
  correlation_id = hc;
  plain = plain;
}

module _ (order : List Bytes → List Bytes) (b : Broker) (version corr : ℤ) (client : Option Bytes)
    (q : Request) where
  Parses-dispatch :
      at_least 9 version ≡ false
      → RequestFits q
      → Parses (dispatch order b (produce_header version corr)) (encode_request encode_batch q) (
        produce_response false corr [],
        record b { msg_ch = send_all b.msg_ch (request_messages q) },
      )
  unfolding dispatch
  Parses-dispatch plain h = rw plain (Parses-then _ (Parses-read_produce b.msg_ch q h))

  -- A produce request of a version that is not flexible, with a transactional id, whose partitions
  -- each hold one batch in the layout that the decoder takes (Kafka's without the checksum): its
  -- records go to the channel, in order, up to the room that is left there, and the others are
  -- dropped; nothing else of the broker changes. The answer is the same whatever was dropped.
  pub handle_request-produce :
      InRange (2 ^ 15) version
      → InRange (2 ^ 31) corr
      → at_least 9 version ≡ false
      → NullableFits client
      → RequestFits q
      → length (encode_header (produce_header version corr) client ++ encode_request encode_batch q)
        < 2 ^ 63
      → length b.msg_ch ≤ capacity
      → handle_request order b
          (encode_header (produce_header version corr) client ++ encode_request encode_batch q)
        ≡ done (
          some (produce_response false corr []),
          record b { msg_ch = b.msg_ch ++ take (capacity - length b.msg_ch) (request_messages q) },
        )
  handle_request-produce hv hc plain hn hq short room =
      rw (← send_all-eq-take b.msg_ch (request_messages q) room) (
        handle_request-Parses order b (produce_header version corr) client
          (produce_header-Fits version corr hv hc plain) hn (Parses-dispatch plain hq) short)
