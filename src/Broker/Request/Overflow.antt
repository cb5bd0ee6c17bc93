-- ===== src/Broker/Request/Overflow.antt =====
-- A request whose client id has a length near 2 ^ 63.
use ome_kafka_bridge.Common.{
  ◌^◌, ◌≤◌, ◌<◌, ◌≡◌, arith, true, le→ltb, ◌++◌, append-nil, Bytes, length, length-append, List, [],
  int64, InRange, uint16, uint32,
}
use ome_kafka_bridge.Binary.{be16, be32, put_uvarint}
use ome_kafka_bridge.Binary.Varint.{length-put_uvarint}
use ome_kafka_bridge.Binary.Fixed.{length-be16}
use ome_kafka_bridge.Broker.Outcome.{panic}
use ome_kafka_bridge.Broker.Reader.{
  Reader, advance, ◌>>=◌, read_slice, read_compact_string, int_pred,
}
use ome_kafka_bridge.Broker.Reader.View.{IsAt-length}
use ome_kafka_bridge.Broker.Reader.Parses.{
  Parses-read_int16, Parses-read_int32, Parses-read_uvarint,
}
use ome_kafka_bridge.Broker.Reader.Panics.{Panics, Panics-first, Panics-after, Panics-longer}
use ome_kafka_bridge.Broker.State.{Broker}
use ome_kafka_bridge.Broker.Request.Whole.{IsAt-start}
use ome_kafka_bridge.Broker.Request.{
  Header, is_flexible_version, read_client_id, read_header, dispatch, handle_request,
}

-- The end of such a field is a negative `int`.
read_slice-panic :
    (r : Reader) → 1 ≤ r.offset → r.offset < 2 ^ 63 → read_slice (int_pred (2 ^ 63)) r ≡ panic
unfolding read_slice int64
read_slice-panic r h short = ground arith

Panics-read_compact_string : Panics read_compact_string (put_uvarint (2 ^ 63))
unfolding read_compact_string ◌>>=◌
Panics-read_compact_string = record {
  runs = λ r s at. rw ((Parses-read_uvarint (2 ^ 63) (omega arith)).runs r s at) (
      read_slice-panic (advance (length (put_uvarint (2 ^ 63))) r)
        (omega (arith, length-put_uvarint (2 ^ 63)))
        (omega
          (arith, at.within, at.short, IsAt-length at, length-append (put_uvarint (2 ^ 63)) s)));
}

-- The header of a request of a flexible version, up to the length of its client id.
abbrev pub encode_long_header : Header → Bytes
encode_long_header h =
    be16 (uint16 h.api_key)
    ++ (be16 (uint16 h.api_version) ++ (be32 (uint32 h.correlation_id) ++ put_uvarint (2 ^ 63)))

Panics-read_header :
    (h : Header)
    → InRange (2 ^ 15) h.api_key
    → InRange (2 ^ 15) h.api_version
    → InRange (2 ^ 31) h.correlation_id
    → is_flexible_version h.api_key h.api_version ≡ true
    → Panics read_header (encode_long_header h)
unfolding read_header read_client_id
Panics-read_header h hk hv hc flexible = Panics-after _ (Parses-read_int16 h.api_key hk) (
    Panics-after _ (Parses-read_int16 h.api_version hv) (
      Panics-after _ (Parses-read_int32 h.correlation_id hc)
        (Panics-first _ (rw flexible (Panics-first _ Panics-read_compact_string)))))

-- A request of a flexible version whose client id has a length field of 2 ^ 63, whatever its kind is
-- and whatever comes after that field: the broker panics. The header fields are in the range of their
-- types and the request is shorter than 2 ^ 63. The shortest such request has 18 bytes.
pub handle_request-overflow :
    (order : List Bytes → List Bytes) (b : Broker) (h : Header) (rest : Bytes)
    → InRange (2 ^ 15) h.api_key
    → InRange (2 ^ 15) h.api_version
    → InRange (2 ^ 31) h.correlation_id
    → is_flexible_version h.api_key h.api_version ≡ true
    → length (encode_long_header h ++ rest) < 2 ^ 63
    → handle_request order b (encode_long_header h ++ rest) ≡ panic
unfolding handle_request
handle_request-overflow order b h rest hk hv hc flexible short =
    let body = encode_long_header h ++ rest in
    let long : 4 ≤ length body =
      simp (length-append, length-be16) (omega (arith, length-put_uvarint (2 ^ 63))) in
    let whole =
      Panics-first (dispatch order b)
        (Panics-longer rest (Panics-read_header h hk hv hc flexible)) in
    rw (
      le→ltb (length body) 4 long,
      whole.runs (record { buf = body; offset = 0 }) [] (rw append-nil (IsAt-start body short)),
    )
