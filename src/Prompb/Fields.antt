-- ===== src/Prompb/Fields.antt =====
-- What is marshalled, as fields: the messages of a request by their numbers.
use ome_kafka_bridge.Common.{
  ℕ, ◌≡◌, ◌≢◌, refl, Option, some, List, [], ◌∷◌, ◌++◌, append_assoc, append-nil, map, Bytes, All,
  uint64,
}
use ome_kafka_bridge.Prompb.{
  Label, Sample, TimeSeries, WriteRequest, append_varint, append_tag, append_string, append_message,
  append_each, marshal_label, marshal_sample, marshal_time_series, marshal,
}
use ome_kafka_bridge.Prompb.Wire.{
  Field, varint_field, fixed_field, bytes_field, encode_field, encode_fields,
}

abbrev pub label_fields : Label → List Field
label_fields l = bytes_field 1 l.name ∷ bytes_field 2 l.value ∷ []

abbrev pub sample_fields : Sample → List Field
sample_fields s = fixed_field 1 s.value ∷ varint_field 2 (uint64 s.timestamp) ∷ []

abbrev pub label_message : Label → Bytes
label_message l = encode_fields (label_fields l)

abbrev pub sample_message : Sample → Bytes
sample_message s = encode_fields (sample_fields s)

abbrev pub messages {ℓ} : {A : Type ℓ} → ℕ → (A → Bytes) → List A → List Field
messages n enc xs = map (λ x. bytes_field n (enc x)) xs

abbrev pub series_fields : TimeSeries → List Field
series_fields ts = messages 1 label_message ts.labels ++ messages 2 sample_message ts.samples

abbrev pub series_message : TimeSeries → Bytes
series_message ts = encode_fields (series_fields ts)

abbrev pub request_fields : WriteRequest → List Field
request_fields r = messages 1 series_message r.timeseries

abbrev pub IsNamed : Label → Type 0
IsNamed l = l.name ≢ []

abbrev pub AllNamed : WriteRequest → Type 0
AllNamed r = All (λ ts. All IsNamed ts.labels) r.timeseries

pub encode_fields-append :
    (fs gs : List Field) → encode_fields (fs ++ gs) ≡ encode_fields fs ++ encode_fields gs
encode_fields-append [] gs = refl
encode_fields-append (f ∷ fs) gs = rw (append_assoc, encode_fields-append fs gs) refl

marshal_label_parts :
    (name value : Bytes)
    → name ≢ []
    → marshal_label (record { name = name; value = value })
      ≡ some (label_message (record { name = name; value = value }))
unfolding marshal_label append_string append_tag append_varint
marshal_label_parts [] value named = absurd (named refl)
marshal_label_parts (c ∷ s) value named = simp (append_assoc, append-nil)

marshal_label-eq : (l : Label) → IsNamed l → marshal_label l ≡ some (label_message l)
marshal_label-eq l named = marshal_label_parts l.name l.value named

append_message-append :
    (buf b rest : Bytes) (n : ℕ)
    → append_message buf n b ++ rest ≡ buf ++ (encode_field (bytes_field n b) ++ rest)
unfolding append_message append_tag append_varint
append_message-append buf b rest n = simp append_assoc

All-any {ℓ} : {A : Type ℓ} (xs : List A) → All (λ _. Unit {0}) xs
All-any [] = tt
All-any (x ∷ xs) = (tt, All-any xs)

marshal_sample-eq : (s : Sample) → marshal_sample s ≡ some (sample_message s)
unfolding marshal_sample append_tag append_varint
marshal_sample-eq s = rw (append_assoc, append-nil) refl

append_each-eq {ℓ} :
    {A : Type ℓ} (P : A → Type 0) (n : ℕ) (marshal_item : A → Option Bytes) (enc : A → Bytes)
    → ((x : A) → P x → marshal_item x ≡ some (enc x))
    → (buf : Bytes) (xs : List A) → All P xs
    → append_each n marshal_item buf xs ≡ some (buf ++ encode_fields (messages n enc xs))
unfolding append_each
append_each-eq P n marshal_item enc each buf [] h = rw append-nil refl
append_each-eq P n marshal_item enc each buf (x ∷ xs) (hx, h) =
    rw
      (
        each x hx,
        append_each-eq P n marshal_item enc each (append_message buf n (enc x)) xs h,
        append_message-append buf (enc x) (encode_fields (messages n enc xs)) n,
      )
      refl

marshal_time_series-eq :
    (ts : TimeSeries) → All IsNamed ts.labels → marshal_time_series ts ≡ some (series_message ts)
unfolding marshal_time_series
marshal_time_series-eq ts h =
    rw
      (
        append_each-eq IsNamed 1 marshal_label label_message marshal_label-eq [] ts.labels h,
        append_each-eq (λ _. Unit {0}) 2 marshal_sample sample_message (λ s _. marshal_sample-eq s)
            (encode_fields (messages 1 label_message ts.labels)) ts.samples (All-any ts.samples),
        encode_fields-append,
      )
      refl

-- A request whose labels all have names is the sequence of its fields.
pub marshal-eq :
    (r : WriteRequest) → AllNamed r → marshal r ≡ some (encode_fields (request_fields r))
unfolding marshal
marshal-eq r h =
    append_each-eq (λ ts. All IsNamed ts.labels) 1 marshal_time_series series_message
      marshal_time_series-eq [] r.timeseries h
