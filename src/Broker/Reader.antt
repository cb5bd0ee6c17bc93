-- ===== src/Broker/Reader.antt =====
-- The binary reader of broker.go: a request's bytes and a position. The platform's `int` is taken
-- to have 64 bits. A nil byte slice and an empty one are the same list: no code tells them apart.
pub mod View
pub mod Parses
pub mod Panics
pub mod Steady
use ome_kafka_bridge.Common.{
  ℕ, zero, suc, ◌+◌, ◌-◌, ◌%◌, ◌^◌, Bool, true, false, ltb, leb, if◌then◌else◌,
}
use ome_kafka_bridge.Common.{
  List, [], ◌∷◌, Bytes, length, take, drop, ℤ, pos, negsuc, pos_part, int8, int16, int32, int64,
}
use ome_kafka_bridge.Binary.{from_be16, from_be32, from_be64, uvarint, varint}
use ome_kafka_bridge.Broker.Outcome.{Outcome, done, panic, stuck, bind}

pub record Reader : Type 0 where
  pub buf : Bytes
  pub offset : ℕ

-- A method of the reader: what it returns, and the reader that it leaves.
abbrev pub Read {ℓ} : Type ℓ → Type ℓ
Read A = Reader → Outcome (A × Reader)

module _ {ℓ} {A : Type ℓ} where
  abbrev pub pure : A → Read A
  pure a r = done (a, r)

module _ {ℓ κ} {A : Type ℓ} {B : Type κ} where
  infixl 5 ◌>>=◌ ◌>>◌
  unfoldable pub ◌>>=◌ : Read A → (A → Read B) → Read B
  ◌>>=◌ m f r = bind (m r) (λ (a, r'). f a r')

  abbrev pub ◌>>◌ : Read A → Read B → Read B
  m >> n = m >>= λ _. n

-- r.pos += n
abbrev pub advance : ℕ → Reader → Reader
advance n r = record r { offset = r.offset + n }

-- No method moves the position past the end, so the difference is not cut off.
abbrev pub remaining : Reader → ℕ
remaining r = length r.buf - r.offset

-- r.buf[r.pos:]
abbrev pub ahead : Reader → Bytes
ahead r = drop r.offset r.buf

first : Bytes → ℕ
first [] = 0
first (b ∷ _) = b

unfoldable pub read_int8 : Read ℤ
unfolding first
read_int8 r =
    if leb (length r.buf) r.offset
    then done (pos 0, r)
    else done (int8 (first (ahead r)), advance 1 r)

unfoldable pub read_int16 : Read ℤ
read_int16 r =
    if ltb (length r.buf) (r.offset + 2)
    then done (pos 0, r)
    else done (int16 (from_be16 (ahead r)), advance 2 r)

unfoldable pub read_int32 : Read ℤ
read_int32 r =
    if ltb (length r.buf) (r.offset + 4)
    then done (pos 0, r)
    else done (int32 (from_be32 (ahead r)), advance 4 r)

unfoldable pub read_int64 : Read ℤ
read_int64 r =
    if ltb (length r.buf) (r.offset + 8)
    then done (pos 0, r)
    else done (int64 (from_be64 (ahead r)), advance 8 r)

-- The end that the four readers of a length-prefixed field share: `n < 0 || r.pos+n > len(r.buf)`
-- gives nothing, else the n bytes from r.pos on. The sum is an `int` and wraps; a negative sum
-- passes the test, and slicing up to it panics.
unfoldable pub read_slice : ℤ → Read Bytes
read_slice (negsuc n) r = done ([], r)
read_slice (pos n) r = elim (int64 (r.offset + n)) [
  | negsuc _ ↦ panic
  | pos end ↦ if ltb (length r.buf) end then done ([], r) else done (take n (ahead r), advance n r)
]

unfoldable pub read_string : Read Bytes
read_string = do n ← read_int16; read_slice n

unfoldable pub read_bytes : Read Bytes
read_bytes = do n ← read_int32; read_slice n

-- binary.Uvarint on r.buf[r.pos:], which panics beyond the end. The position moves if n > 0.
unfoldable pub read_uvarint : Read ℕ
read_uvarint r =
    if ltb (length r.buf) r.offset
    then panic
    else (let (v, n) = uvarint (ahead r) in done (v, advance (pos_part n) r))

unfoldable pub read_varint : Read ℤ
read_varint r =
    if ltb (length r.buf) r.offset
    then panic
    else (let (v, n) = varint (ahead r) in done (v, advance (pos_part n) r))

-- `int(v) - 1` of an unsigned 64-bit v
abbrev pub int_pred : ℕ → ℤ
int_pred v = int64 (v + 2 ^ 64 - 1)

unfoldable pub read_compact_string : Read Bytes
read_compact_string = do v ← read_uvarint; read_slice (int_pred v)

unfoldable pub read_compact_nullable_string : Read Bytes
read_compact_nullable_string = do v ← read_uvarint; read_slice (int_pred v)

unfoldable pub read_var_bytes : Read Bytes
read_var_bytes = do n ← read_varint; read_slice n
