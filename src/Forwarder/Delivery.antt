-- ===== src/Forwarder/Delivery.antt =====
-- What the receiver of remote_write gets from a flush.
use ome_kafka_bridge.Common.{
  ◌^◌, ◌<◌, ◌≡◌, ◌≢◌, ◌∙◌, refl, arith, Option, some, ◌>>=◌, List, [], ◌∷◌, Bytes, length, All,
  filter_map, InRange, pos, negsuc, Option-cases, inl, inr,
}
use ome_kafka_bridge.Labels.{Labels}
use ome_kafka_bridge.Parser.Model.{Time, MetricSample}
use ome_kafka_bridge.Relabel
use ome_kafka_bridge.Prompb.{TimeSeries, WriteRequest, marshal}
use ome_kafka_bridge.Prompb.Wire.{encode_fields}
use ome_kafka_bridge.Prompb.Fields.{request_fields, AllNamed, marshal-eq}
use ome_kafka_bridge.Prompb.RoundTrip.{SampleFits, decode_request, decode_request-marshal}
use ome_kafka_bridge.Forwarder.Metrics.{
  MetricsForwarder, sample_labels, series_of, to_series, unix_milli, encode_batch, flush,
}
use ome_kafka_bridge.Forwarder.Interleave.Metrics.{flush-eq}

-- What the types of Go's float64 and time.Time bound.
abbrev pub Fits : MetricSample → Type 0
Fits s = (s.value < 2 ^ 64) × InRange (2 ^ 63) s.timestamp

unix_milli-InRange : (t : Time) → InRange (2 ^ 63) t → InRange (2 ^ 63) (unix_milli t)
unix_milli-InRange (pos n) h = omega arith
unix_milli-InRange (negsuc n) h = omega arith

module _ (range : Labels → List Bytes) (order : Labels → Labels) (compress : Bytes → Bytes)
    (f : MetricsForwarder) where
  abbrev pub request_of : List MetricSample → WriteRequest
  request_of batch = record { timeseries = filter_map (to_series range order compress f) batch }

  series_of-Fits :
      (labels : Labels) (s : MetricSample)
      → Fits s
      → All SampleFits (series_of range order compress labels s).samples
  series_of-Fits labels s (hv, ht) = ((hv, unix_milli-InRange s.timestamp ht), tt)

  to_series-Fits :
      (s : MetricSample)
      → Fits s
      → (ts : TimeSeries) → to_series range order compress f s ≡ some ts
      → All SampleFits ts.samples
  unfolding to_series
  to_series-Fits s h ts e =
      ground
        (arith, series_of-Fits (Relabel.apply range f.rules (sample_labels f.extra_labels s)).1 s h)

  series-fit :
      (batch : List MetricSample)
      → All Fits batch
      → All (λ ts. All SampleFits ts.samples) (filter_map (to_series range order compress f) batch)
  unfolding filter_map
  series-fit [] h = tt
  series-fit (s ∷ batch) (hs, h) =
      let rest = series-fit batch h in
      elim (Option-cases (to_series range order compress f s)) [
        | inl dropped ↦ rw (dropped, filter_map) rest
        | inr (ts, kept) ↦ rw (kept, filter_map) (to_series-Fits s hs ts kept, rest)
      ]

  encode_batch-eq :
      (series : List TimeSeries)
      → series ≢ []
      → encode_batch range order compress series
        ≡ (marshal (record { timeseries = series }) >>= λ bytes. some (compress bytes))
  unfolding encode_batch
  encode_batch-eq [] h = absurd (h refl)
  encode_batch-eq (ts ∷ rest) h = refl

  -- A flush takes what is pending and hands one body to `send`, from which a receiver that can undo the
  -- compression reads the series of the samples that the rules keep, in the order of submission. The
  -- rules keep one at least, they leave no label without a name, values and times are 64 bits, and
  -- the message is shorter than 2 ^ 63.
  pub flush-delivers :
      (decompress : Bytes → Option Bytes)
      → ((b : Bytes) → decompress (compress b) ≡ some b)
      → All Fits f.pending
      → (request_of f.pending).timeseries ≢ []
      → AllNamed (request_of f.pending)
      → length (encode_fields (request_fields (request_of f.pending))) < 2 ^ 63
      → (body : Bytes) × (flush range order compress f ≡ (record f { pending = [] }, some body))
        × (decompress body >>= decode_request ≡ some (request_of f.pending))
  flush-delivers decompress inverse fits kept named short =
      let r = request_of f.pending in
      let bytes = encode_fields (request_fields r) in
      (
        compress bytes,
        flush-eq range order compress f f.pending
            ∙ rw (encode_batch-eq r.timeseries kept, marshal-eq r named) refl,
        (let decoded = decode_request-marshal r named (series-fit f.pending fits) short in
            rw (inverse bytes) (rw (marshal-eq r named) at decoded)),
      )
