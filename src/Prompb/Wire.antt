-- ===== src/Prompb/Wire.antt =====
-- The protobuf wire format as a reader sees it: a message is a list of numbered fields.
use ome_kafka_bridge.Common.{
  ℕ, zero, suc, ◌+◌, ◌*◌, ◌/◌, ◌%◌, ◌^◌, ◌≤◌, ◌<◌, ◌≡◌, refl, arith, ltb, le→ltb, ◌==◌,
  if◌then◌else◌, Option, none, some, ◌>>=◌, List, [], ◌∷◌, ◌++◌, append_assoc, Bytes, length,
  length-append, take, drop, take-append, drop-append, All, pos_part,
}
use ome_kafka_bridge.Binary.{put_uvarint, uvarint}
use ome_kafka_bridge.Binary.Varint.{uvarint-put_uvarint, length-put_uvarint}
use ome_kafka_bridge.Prompb.{le64}

-- A field by its number and its payload: wire types 0, 1 and 2.
pub data Field : Type 0 where
  varint_field : ℕ → ℕ → Field
  fixed_field : ℕ → ℕ → Field
  bytes_field : ℕ → Bytes → Field

-- What follows the tag, and the tag.
abbrev pub encode_field : Field → Bytes
encode_field (varint_field n v) = put_uvarint (n * 8) ++ put_uvarint v
encode_field (fixed_field n v) = put_uvarint (n * 8 + 1) ++ le64 v
encode_field (bytes_field n b) = put_uvarint (n * 8 + 2) ++ (put_uvarint (length b) ++ b)

abbrev pub encode_fields : List Field → Bytes
encode_fields [] = []
encode_fields (f ∷ fs) = encode_field f ++ encode_fields fs

from_le32 : Bytes → ℕ
from_le32 (a ∷ b ∷ c ∷ d ∷ _) = a + b * 2 ^ 8 + c * 2 ^ 16 + d * 2 ^ 24
from_le32 _ = 0

from_le64 : Bytes → ℕ
from_le64 s = from_le32 s + from_le32 (drop 4 s) * 2 ^ 32

-- The value of a variable-length number and what follows it.
read_number : Bytes → Option (ℕ × Bytes)
read_number s =
    let (v, n) = uvarint s in if pos_part n == 0 then none else some (v, drop (pos_part n) s)

read_payload : ℕ → ℕ → Bytes → Option (Field × Bytes)
read_payload n zero s = do (v, rest) ← read_number s; some (varint_field n v, rest)
read_payload n (suc zero) s =
    if ltb (length s) 8 then none else some (fixed_field n (from_le64 s), drop 8 s)
read_payload n (suc (suc zero)) s = do
  (k, rest) ← read_number s
  if ltb (length rest) k then none else some (bytes_field n (take k rest), drop k rest)
read_payload n _ s = none

read_field : Bytes → Option (Field × Bytes)
read_field s = do (tag, rest) ← read_number s; read_payload (tag / 8) (tag % 8) rest

-- Every field takes a byte, so the length of a message is fuel enough.
read_fields_loop : ℕ → Bytes → Option (List Field)
read_fields_loop fuel [] = some []
read_fields_loop zero (b ∷ s) = none
read_fields_loop (suc fuel) (b ∷ s) = do
  (f, rest) ← read_field (b ∷ s)
  fs ← read_fields_loop fuel rest
  some (f ∷ fs)

pub read_fields : Bytes → Option (List Field)
read_fields s = read_fields_loop (length s) s

-- The numbers are in the range of a field's number and of 64 bits.
abbrev pub FieldFits : Field → Type 0
FieldFits (varint_field n v) = (n < 2 ^ 29) × (v < 2 ^ 64)
FieldFits (fixed_field n v) = (n < 2 ^ 29) × (v < 2 ^ 64)
FieldFits (bytes_field n b) = (n < 2 ^ 29) × (length b < 2 ^ 63)

read_number-put_uvarint :
    (v : ℕ) (rest : Bytes) → v < 2 ^ 64 → read_number (put_uvarint v ++ rest) ≡ some (v, rest)
unfolding read_number
read_number-put_uvarint v rest h =
    rw (uvarint-put_uvarint v rest h, drop-append (put_uvarint v) rest)
      (ground (arith, length-put_uvarint v))

from_le64-le64 : (v : ℕ) (rest : Bytes) → v < 2 ^ 64 → from_le64 (le64 v ++ rest) ≡ v
unfolding from_le64 le64 from_le32
from_le64-le64 v rest h = omega arith

drop-le64 : (v : ℕ) (rest : Bytes) → drop 8 (le64 v ++ rest) ≡ rest
unfolding le64
drop-le64 v rest = refl

length-le64 : (v : ℕ) (rest : Bytes) → 8 ≤ length (le64 v ++ rest)
unfolding le64
length-le64 v rest = omega arith

tag_number : (n t : ℕ) → t < 8 → (n * 8 + t) / 8 ≡ n
tag_number n t h = omega arith

tag_type : (n t : ℕ) → t < 8 → (n * 8 + t) % 8 ≡ t
tag_type n t h = omega arith

read_field-tag :
    (n t : ℕ) (s : Bytes)
    → n < 2 ^ 29
    → t < 8
    → read_field (put_uvarint (n * 8 + t) ++ s) ≡ read_payload n t s
unfolding read_field
read_field-tag n t s hn ht =
    rw (read_number-put_uvarint (n * 8 + t) s (omega arith), tag_number n t ht, tag_type n t ht)
      refl

-- A field is read back, whatever follows it.
read_field-encode_field :
    (f : Field) (rest : Bytes) → FieldFits f → read_field (encode_field f ++ rest) ≡ some (f, rest)
unfolding read_payload
read_field-encode_field (varint_field n v) rest (hn, hv) =
    let tag : n * 8 ≡ n * 8 + 0 = omega arith in
    rw
      (
        append_assoc,
        tag,
        read_field-tag n 0 (put_uvarint v ++ rest) hn (omega arith),
        read_number-put_uvarint v rest hv,
      )
      refl
read_field-encode_field (fixed_field n v) rest (hn, hv) =
    rw
      (
        append_assoc,
        read_field-tag n 1 (le64 v ++ rest) hn (omega arith),
        le→ltb (length (le64 v ++ rest)) 8 (length-le64 v rest),
        from_le64-le64 v rest hv,
        drop-le64 v rest,
      )
      refl
read_field-encode_field (bytes_field n b) rest (hn, hb) =
    let enough : length b ≤ length (b ++ rest) = omega (arith, length-append b rest) in
    rw
      (
        append_assoc,
        append_assoc,
        read_field-tag n 2 (put_uvarint (length b) ++ (b ++ rest)) hn (omega arith),
        read_number-put_uvarint (length b) (b ++ rest) (omega arith),
        le→ltb (length (b ++ rest)) (length b) enough,
        take-append b rest,
        drop-append b rest,
      )
      refl

length-encode_field : (f : Field) → 1 ≤ length (encode_field f)
length-encode_field (varint_field n v) =
    omega
      (arith, length-append (put_uvarint (n * 8)) (put_uvarint v), (length-put_uvarint (n * 8)).0)
length-encode_field (fixed_field n v) =
    omega
      (arith, length-append (put_uvarint (n * 8 + 1)) (le64 v), (length-put_uvarint (n * 8 + 1)).0)
length-encode_field (bytes_field n b) = omega (
  arith,
  length-append (put_uvarint (n * 8 + 2)) (put_uvarint (length b) ++ b),
  (length-put_uvarint (n * 8 + 2)).0,
)

loop_step :
    (fuel : ℕ) (s : Bytes)
    → 1 ≤ length s
    → read_fields_loop (suc fuel) s
      ≡ read_field s >>= (λ (f, rest). read_fields_loop fuel rest >>= (λ fs. some (f ∷ fs)))
unfolding read_fields_loop
loop_step fuel [] h = absurd (omega arith)
loop_step fuel (b ∷ s) h = refl

read_fields_loop-encode_fields :
    (fuel : ℕ) (fs : List Field)
    → All FieldFits fs
    → length (encode_fields fs) ≤ fuel
    → read_fields_loop fuel (encode_fields fs) ≡ some fs
read_fields_loop-encode_fields fuel [] h hf = unfold read_fields_loop in refl
read_fields_loop-encode_fields zero (f ∷ fs) h hf =
    absurd (omega (arith, length-append (encode_field f) (encode_fields fs), length-encode_field f))
read_fields_loop-encode_fields (suc fuel) (f ∷ fs) (hd, h) hf =
    let size : length (encode_field f ++ encode_fields fs)
        ≡ length (encode_field f) + length (encode_fields fs) =
      length-append (encode_field f) (encode_fields fs) in
    rw
      (
        loop_step fuel (encode_field f ++ encode_fields fs)
            (omega (arith, size, length-encode_field f)),
        read_field-encode_field f (encode_fields fs) hd,
        read_fields_loop-encode_fields fuel fs h (omega (arith, size, length-encode_field f)),
      )
      refl

pub read_fields-encode_fields :
    (fs : List Field) → All FieldFits fs → read_fields (encode_fields fs) ≡ some fs
unfolding read_fields
read_fields-encode_fields fs h =
    read_fields_loop-encode_fields (length (encode_fields fs)) fs h (omega arith)
