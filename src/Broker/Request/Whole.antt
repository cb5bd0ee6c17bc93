-- ===== src/Broker/Request/Whole.antt =====
-- The header of a request, and whole requests from what their handlers do with the rest.
use ome_kafka_bridge.Common.{
  ◌^◌, ◌<◌, ◌≤◌, ◌≡◌, arith, refl, false, le→ltb, List, [], ◌++◌, append-nil, Bytes, length,
  length-append, InRange, uint16, uint32, Option, some,
}
use ome_kafka_bridge.Binary.{be16, be32}
use ome_kafka_bridge.Binary.Fixed.{length-be16}
use ome_kafka_bridge.Broker.Outcome.{done, panic}
use ome_kafka_bridge.Broker.Reader.View.{IsAt}
use ome_kafka_bridge.Broker.Reader.Parses.{
  Parses, Parses-bind, Parses-then, Parses-read_int16, Parses-read_int32,
}
use ome_kafka_bridge.Broker.Reader.Panics.{Panics, Panics-after}
use ome_kafka_bridge.Broker.State.{Broker}
use ome_kafka_bridge.Broker.Request.{
  Header, is_flexible_version, read_client_id, read_header, dispatch, handle_request,
}
use ome_kafka_bridge.Broker.Produce.Encoding.{NullableFits, encode_nullable}
use ome_kafka_bridge.Broker.Produce.RoundTrip.{Parses-read_nullable}

-- The header of a request whose version is not flexible.
abbrev pub encode_header : Header → Option Bytes → Bytes
encode_header h client =
    be16 (uint16 h.api_key)
    ++ (be16 (uint16 h.api_version) ++ (be32 (uint32 h.correlation_id) ++ encode_nullable client))

pub record HeaderFits (h : Header) : Type 0 where
  pub api_key : InRange (2 ^ 15) h.api_key
  pub api_version : InRange (2 ^ 15) h.api_version
  pub correlation_id : InRange (2 ^ 31) h.correlation_id
  pub plain : is_flexible_version h.api_key h.api_version ≡ false

Parses-read_client_id :
    (client : Option Bytes)
    → NullableFits client
    → Parses (read_client_id false) (encode_nullable client) tt
unfolding read_client_id
Parses-read_client_id client h = Parses-then _ (Parses-read_nullable client h)

pub Parses-read_header :
    (h : Header) (client : Option Bytes)
    → HeaderFits h
    → NullableFits client
    → Parses read_header (encode_header h client) h
unfolding read_header
Parses-read_header h client fits hc = Parses-bind _ (Parses-read_int16 h.api_key fits.api_key) (
    Parses-bind _ (Parses-read_int16 h.api_version fits.api_version) (
      Parses-bind _ (Parses-read_int32 h.correlation_id fits.correlation_id)
        (rw fits.plain (Parses-then _ (Parses-read_client_id client hc)))))

-- A reader at the start of a body.
pub IsAt-start :
    (body : Bytes) → length body < 2 ^ 63 → IsAt (record { buf = body; offset = 0 }) body
IsAt-start body h = record { rest = refl; within = omega arith; short = h }

length-encode_header : (h : Header) (client : Option Bytes) → 4 ≤ length (encode_header h client)
length-encode_header h client = simp (length-append, length-be16) (omega arith)

module _ (order : List Bytes → List Bytes) (b : Broker) (h : Header) (client : Option Bytes) where
  -- A body that the handler of its kind reads to the end gets the handler's answer.
  pub handle_request-Parses :
      {enc : Bytes} {response : Bytes} {b' : Broker}
      → HeaderFits h
      → NullableFits client
      → Parses (dispatch order b h) enc (response, b')
      → length (encode_header h client ++ enc) < 2 ^ 63
      → handle_request order b (encode_header h client ++ enc) ≡ done (some response, b')
  unfolding handle_request
  handle_request-Parses {enc} fits hc parses short =
      let body = encode_header h client ++ enc in
      let long : 4 ≤ length body =
        omega (arith, length-append (encode_header h client) enc, length-encode_header h client) in
      let whole = Parses-bind (dispatch order b) (Parses-read_header h client fits hc) parses in
      rw (
        le→ltb (length body) 4 long,
        whole.runs (record { buf = body; offset = 0 }) [] (rw append-nil (IsAt-start body short)),
      )

  pub handle_request-Panics :
      {enc : Bytes}
      → HeaderFits h
      → NullableFits client
      → Panics (dispatch order b h) enc
      → length (encode_header h client ++ enc) < 2 ^ 63
      → handle_request order b (encode_header h client ++ enc) ≡ panic
  unfolding handle_request
  handle_request-Panics {enc} fits hc panics short =
      let body = encode_header h client ++ enc in
      let long : 4 ≤ length body =
        omega (arith, length-append (encode_header h client) enc, length-encode_header h client) in
      let whole = Panics-after (dispatch order b) (Parses-read_header h client fits hc) panics in
      rw (
        le→ltb (length body) 4 long,
        whole.runs (record { buf = body; offset = 0 }) [] (rw append-nil (IsAt-start body short)),
      )
