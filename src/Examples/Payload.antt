-- ===== src/Examples/Payload.antt =====
-- A remote_write request with one series, and one whose label has no name.
use ome_kafka_bridge.Common.{
  ◌^◌, ◌<◌, ◌≡◌, ◌↔◌, arith, false, none, some, ◌>>=◌, [], ◌∷◌, codes, length, pos, uint64,
}
use ome_kafka_bridge.Binary.{put_uvarint, put_uvarint_loop}
use ome_kafka_bridge.Prompb.{Label, Sample, WriteRequest, marshal, le64}
use ome_kafka_bridge.Prompb.Wire.{encode_fields}
use ome_kafka_bridge.Prompb.Fields.{AllNamed, request_fields}
use ome_kafka_bridge.Prompb.RoundTrip.{RequestFits, decode_request, decode_request-marshal}
use ome_kafka_bridge.Prompb.Errors.{all_named, marshal-none}

-- The bits of the float 1.5
abbrev sample : Sample
sample = record { value = 4609434218613702656; timestamp = pos 1700000000000 }

abbrev label : Label
label = record { name = codes "__name__"; value = codes "ome_power" }

abbrev request : WriteRequest
request = record {
  timeseries = record { labels = label ∷ []; samples = sample ∷ sample ∷ [] } ∷ [];
}

request-AllNamed : AllNamed request
request-AllNamed = (((λ e. cc), tt), tt)

request-RequestFits : RequestFits request
request-RequestFits = (((omega arith, omega arith), ((omega arith, omega arith), tt)), tt)

request-short : length (encode_fields (request_fields request)) < 2 ^ 63
unfolding put_uvarint put_uvarint_loop le64 uint64
request-short = omega arith

decode_request-marshal_example : marshal request >>= decode_request ≡ some request
decode_request-marshal_example =
    decode_request-marshal request request-AllNamed request-RequestFits request-short

abbrev unnamed : WriteRequest
unnamed = record {
  timeseries = record { labels = label ∷ record { name = []; value = [] } ∷ []; samples = [] } ∷ [];
}

marshal-none_example : (marshal unnamed ≡ none) ↔ (all_named unnamed ≡ false)
marshal-none_example = marshal-none unnamed
