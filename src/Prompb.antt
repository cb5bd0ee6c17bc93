-- ===== src/Prompb.antt =====
-- pkg/prompb/prompb.go: the protobuf encoding of a remote_write request. A float64 is its bit
-- pattern, math.Float64bits; `none` is an error.
pub mod Wire
pub mod Fields
pub mod RoundTrip
pub mod Errors
use ome_kafka_bridge.Common.{
  ℕ, ◌+◌, ◌*◌, ◌/◌, ◌%◌, ◌^◌, Option, none, some, ◌>>=◌, List, [], ◌∷◌, ◌++◌, Bytes, length, ℤ,
  uint64,
}
use ome_kafka_bridge.Binary.{put_uvarint}

pub record Label : Type 0 where
  pub name : Bytes
  pub value : Bytes

pub record Sample : Type 0 where
  pub value : ℕ
  pub timestamp : ℤ

pub record TimeSeries : Type 0 where
  pub labels : List Label
  pub samples : List Sample

pub record WriteRequest : Type 0 where
  pub timeseries : List TimeSeries

-- binary.LittleEndian.PutUint64
abbrev le32 : ℕ → Bytes
le32 v = (v % 256) ∷ (v / 2 ^ 8 % 256) ∷ (v / 2 ^ 16 % 256) ∷ (v / 2 ^ 24 % 256) ∷ []

unfoldable pub le64 : ℕ → Bytes
le64 v = le32 (v % 2 ^ 32) ++ le32 (v / 2 ^ 32)

unfoldable pub append_varint : Bytes → ℕ → Bytes
append_varint buf v = buf ++ put_uvarint v

-- `(fieldNum<<3)|wireType`, for a wire type of three bits
unfoldable pub append_tag : Bytes → ℕ → ℕ → Bytes
unfolding append_varint
append_tag buf field_num wire_type = append_varint buf (field_num * 8 + wire_type)

unfoldable pub append_string : Bytes → Bytes → Bytes
unfolding append_varint
append_string buf s = append_varint buf (length s) ++ s

unfoldable pub marshal_label : Label → Option Bytes
unfolding append_tag append_string
marshal_label l = elim l.name [
  | [] ↦ none
  | _ ∷ _ ↦
      (let named = append_string (append_tag [] 1 2) l.name in
        some (append_string (append_tag named 2 2) l.value))
]

unfoldable pub marshal_sample : Sample → Option Bytes
unfolding append_tag append_varint le64
marshal_sample s =
    some (append_varint (append_tag (append_tag [] 1 1 ++ le64 s.value) 2 0) (uint64 s.timestamp))

-- A field of wire type 2: its tag, its length and its bytes.
unfoldable pub append_message : Bytes → ℕ → Bytes → Bytes
unfolding append_tag append_varint
append_message buf field_num bytes =
    append_varint (append_tag buf field_num 2) (length bytes) ++ bytes

-- A loop that marshals each item and appends it as a field, up to the first error.
unfoldable pub append_each {ℓ} :
    {A : Type ℓ} → ℕ → (A → Option Bytes) → Bytes → List A → Option Bytes
unfolding append_message
append_each field_num marshal_item buf [] = some buf
append_each field_num marshal_item buf (x ∷ xs) = do
  bytes ← marshal_item x
  append_each field_num marshal_item (append_message buf field_num bytes) xs

unfoldable pub marshal_time_series : TimeSeries → Option Bytes
unfolding append_each marshal_label marshal_sample
marshal_time_series ts = do
  buf ← append_each 1 marshal_label [] ts.labels
  append_each 2 marshal_sample buf ts.samples

unfoldable pub marshal : WriteRequest → Option Bytes
unfolding append_each marshal_time_series
marshal r = append_each 1 marshal_time_series [] r.timeseries
