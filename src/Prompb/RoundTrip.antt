-- ===== src/Prompb/RoundTrip.antt =====
-- A receiver of remote_write gets back the request that was marshalled.
use ome_kafka_bridge.Common.{
  ℕ, ◌+◌, ◌*◌, ◌^◌, ◌≤◌, ◌<◌, ◌≡◌, refl, arith, ◌==◌, if◌then◌else◌, Option, some, ◌>>=◌, List, [],
  ◌∷◌, ◌++◌, append_assoc, append-nil, Bytes, length, length-append, All, InRange, int64,
  int64-uint64, uint64-lt, pos,
}
use ome_kafka_bridge.Binary.{put_uvarint}
use ome_kafka_bridge.Prompb.{Label, Sample, TimeSeries, WriteRequest, marshal}
use ome_kafka_bridge.Prompb.Wire.{
  Field, varint_field, fixed_field, bytes_field, encode_field, encode_fields, read_fields,
  FieldFits, read_fields-encode_fields,
}
use ome_kafka_bridge.Prompb.Fields.{
  label_fields, sample_fields, label_message, sample_message, messages, series_fields,
  series_message, request_fields, AllNamed, marshal-eq, encode_fields-append,
}

-- The receiver: unknown fields are skipped, and of a field that stands twice the last one counts.
set_label : Label → Field → Label
set_label l (bytes_field n b) =
    if n == 1 then record l { name = b } else if n == 2 then record l { value = b } else l
set_label l _ = l

set_sample : Sample → Field → Sample
set_sample s (fixed_field n v) = if n == 1 then record s { value = v } else s
set_sample s (varint_field n v) = if n == 2 then record s { timestamp = int64 v } else s
set_sample s (bytes_field n b) = s

fold {ℓ κ} : {A : Type ℓ} {B : Type κ} → (B → A → B) → B → List A → B
fold f b [] = b
fold f b (x ∷ xs) = fold f (f b x) xs

decode_label : Bytes → Option Label
decode_label b = read_fields b >>= λ fs. some (fold set_label (record { name = []; value = [] }) fs)

decode_sample : Bytes → Option Sample
decode_sample b =
    read_fields b >>= λ fs. some (fold set_sample (record { value = 0; timestamp = pos 0 }) fs)

-- Fields into an accumulator, where one may fail.
add_fields {ℓ} : {A : Type ℓ} → (A → Field → Option A) → A → List Field → Option A
add_fields add a [] = some a
add_fields add a (f ∷ fs) = add a f >>= λ a'. add_fields add a' fs

add_series_field : TimeSeries → Field → Option TimeSeries
add_series_field ts (bytes_field n b) =
    if n == 1
    then (decode_label b >>= λ l. some (record ts { labels = ts.labels ++ l ∷ [] }))
    else if n == 2
    then (decode_sample b >>= λ s. some (record ts { samples = ts.samples ++ s ∷ [] }))
    else some ts
add_series_field ts _ = some ts

decode_series : Bytes → Option TimeSeries
decode_series b =
    read_fields b >>= λ fs. add_fields add_series_field (record { labels = []; samples = [] }) fs

add_request_field : WriteRequest → Field → Option WriteRequest
add_request_field r (bytes_field n b) =
    if n == 1
    then (decode_series b >>= λ ts. some (record { timeseries = r.timeseries ++ ts ∷ [] }))
    else some r
add_request_field r _ = some r

pub decode_request : Bytes → Option WriteRequest
decode_request b =
    read_fields b >>= λ fs. add_fields add_request_field (record { timeseries = [] }) fs

-- The values are what a float64 and an int64 can be.
abbrev pub SampleFits : Sample → Type 0
SampleFits s = (s.value < 2 ^ 64) × InRange (2 ^ 63) s.timestamp

abbrev pub RequestFits : WriteRequest → Type 0
RequestFits r = All (λ ts. All SampleFits ts.samples) r.timeseries

length-bytes_field :
    (n : ℕ) (b rest : Bytes)
    → length b + length rest ≤ length (encode_field (bytes_field n b) ++ rest)
length-bytes_field n b rest = omega (
  arith,
  length-append (put_uvarint (n * 8 + 2) ++ (put_uvarint (length b) ++ b)) rest,
  length-append (put_uvarint (n * 8 + 2)) (put_uvarint (length b) ++ b),
  length-append (put_uvarint (length b)) b,
)

-- The messages in a message are shorter than it.
messages-Fit {ℓ} :
    {A : Type ℓ} (n : ℕ) (enc : A → Bytes) (xs : List A)
    → n < 2 ^ 29
    → length (encode_fields (messages n enc xs)) < 2 ^ 63
    → All FieldFits (messages n enc xs) × All (λ x. length (enc x) < 2 ^ 63) xs
messages-Fit n enc [] hn h = (tt, tt)
messages-Fit n enc (x ∷ xs) hn h =
    let whole = length-bytes_field n (enc x) (encode_fields (messages n enc xs)) in
    let rest = messages-Fit n enc xs hn (omega (arith, whole)) in
    let own : length (enc x) < 2 ^ 63 = omega (arith, whole) in (((hn, own), rest.0), (own, rest.1))

decode_label-message :
    (l : Label) → length (label_message l) < 2 ^ 63 → decode_label (label_message l) ≡ some l
unfolding decode_label set_label fold
decode_label-message l h =
    let name = length-bytes_field 1 l.name (encode_field (bytes_field 2 l.value) ++ []) in
    let value = length-bytes_field 2 l.value [] in
    rw
      (read_fields-encode_fields (label_fields l)
        ((omega arith, omega (arith, name)), ((omega arith, omega (arith, name, value)), tt)))
      refl

decode_sample-message : (s : Sample) → SampleFits s → decode_sample (sample_message s) ≡ some s
unfolding decode_sample set_sample fold
decode_sample-message s (hv, ht) =
    rw
      (
        read_fields-encode_fields (sample_fields s)
            ((omega arith, hv), ((omega arith, uint64-lt s.timestamp), tt)),
        int64-uint64 s.timestamp ht,
      )
      refl

-- Labels are added to those that are there, before the fields that follow.
add_labels :
    (ts : TimeSeries) (ls : List Label) (fs : List Field)
    → All (λ l. length (label_message l) < 2 ^ 63) ls
    → add_fields add_series_field ts (messages 1 label_message ls ++ fs)
      ≡ add_fields add_series_field (record ts { labels = ts.labels ++ ls }) fs
unfolding add_fields add_series_field
add_labels ts [] fs h = rw append-nil refl
add_labels ts (l ∷ ls) fs (hl, h) =
    rw
      (
        decode_label-message l hl,
        add_labels (record ts { labels = ts.labels ++ l ∷ [] }) ls fs h,
        append_assoc,
      )
      refl

add_samples :
    (ts : TimeSeries) (ss : List Sample)
    → All SampleFits ss
    → add_fields add_series_field ts (messages 2 sample_message ss)
      ≡ some (record ts { samples = ts.samples ++ ss })
unfolding add_fields add_series_field
add_samples ts [] h = rw append-nil refl
add_samples ts (s ∷ ss) (hs, h) =
    rw
      (
        decode_sample-message s hs,
        add_samples (record ts { samples = ts.samples ++ s ∷ [] }) ss h,
        append_assoc,
      )
      refl

All-append {ℓ} :
    {A : Type ℓ} (P : A → Type 0) (xs ys : List A) → All P xs → All P ys → All P (xs ++ ys)
All-append P [] ys h k = k
All-append P (x ∷ xs) ys (hx, h) k = (hx, All-append P xs ys h k)

decode_series-message :
    (ts : TimeSeries)
    → All SampleFits ts.samples
    → length (series_message ts) < 2 ^ 63
    → decode_series (series_message ts) ≡ some ts
unfolding decode_series
decode_series-message ts hs h =
    let size : length (series_message ts)
        ≡ length (encode_fields (messages 1 label_message ts.labels))
          + length (encode_fields (messages 2 sample_message ts.samples)) =
      rw
        (encode_fields-append (messages 1 label_message ts.labels)
          (messages 2 sample_message ts.samples))
        (length-append (encode_fields (messages 1 label_message ts.labels))
          (encode_fields (messages 2 sample_message ts.samples))) in
    let labels = messages-Fit 1 label_message ts.labels (omega arith) (omega (arith, size)) in
    let samples = messages-Fit 2 sample_message ts.samples (omega arith) (omega (arith, size)) in
    rw
      (
        read_fields-encode_fields (series_fields ts) (All-append FieldFits _ _ labels.0 samples.0),
        add_labels (record { labels = []; samples = [] }) ts.labels
            (messages 2 sample_message ts.samples) labels.1,
        add_samples (record { labels = ts.labels; samples = [] }) ts.samples hs,
      )
      refl

add_series :
    (r : WriteRequest) (xs : List TimeSeries)
    → All (λ ts. All SampleFits ts.samples) xs
    → All (λ ts. length (series_message ts) < 2 ^ 63) xs
    → add_fields add_request_field r (messages 1 series_message xs)
      ≡ some (record { timeseries = r.timeseries ++ xs })
unfolding add_fields add_request_field
add_series r [] hs h = rw append-nil refl
add_series r (ts ∷ xs) (hts, hs) (hl, h) =
    rw
      (
        decode_series-message ts hts hl,
        add_series (record { timeseries = r.timeseries ++ ts ∷ [] }) xs hs h,
        append_assoc,
      )
      refl

-- A request whose labels all have names is marshalled without an error, and a receiver that knows
-- the fields of the protobuf messages gets the same request back, with its series, labels and
-- samples in order. The floats are 64 bits, the timestamps 64 bits with a sign, and the message is
-- shorter than 2 ^ 63.
pub decode_request-marshal :
    (r : WriteRequest)
    → AllNamed r
    → RequestFits r
    → length (encode_fields (request_fields r)) < 2 ^ 63
    → marshal r >>= decode_request ≡ some r
unfolding decode_request
decode_request-marshal r named fits h =
    let each = messages-Fit 1 series_message r.timeseries (omega arith) h in
    rw (marshal-eq r named, read_fields-encode_fields (request_fields r) each.0)
      (add_series (record { timeseries = [] }) r.timeseries fits each.1)
