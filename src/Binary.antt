-- ===== src/Binary.antt =====
-- The parts of Go's encoding/binary that the broker and the protobuf writer call.
pub mod Fixed
pub mod Varint
pub mod Extent
use ome_kafka_bridge.Common.{
  ℕ, zero, suc, ◌+◌, ◌-◌, ◌*◌, ◌/◌, ◌%◌, ◌^◌, Bool, ◌&&◌, ltb, leb, ◌==◌, if◌then◌else◌,
}
use ome_kafka_bridge.Common.{List, [], ◌∷◌, ◌++◌, Bytes, ℤ, pos, negsuc}

-- binary.BigEndian.PutUint16, PutUint32 and PutUint64 of a number below 2 ^ w.
unfoldable pub be16 : ℕ → Bytes
be16 v = (v / 256 % 256) ∷ (v % 256) ∷ []

unfoldable pub be32 : ℕ → Bytes
be32 v = (v / 2 ^ 24 % 256) ∷ (v / 2 ^ 16 % 256) ∷ (v / 2 ^ 8 % 256) ∷ (v % 256) ∷ []

unfoldable pub be64 : ℕ → Bytes
unfolding be32
be64 v = be32 (v / 2 ^ 32) ++ be32 (v % 2 ^ 32)

-- binary.BigEndian.Uint16, Uint32 and Uint64: the first bytes of the slice. On a shorter slice Go
-- panics; every caller has tested the length.
unfoldable pub from_be16 : Bytes → ℕ
from_be16 (a ∷ b ∷ _) = a * 256 + b
from_be16 _ = 0

unfoldable pub from_be32 : Bytes → ℕ
from_be32 (a ∷ b ∷ c ∷ d ∷ _) = a * 2 ^ 24 + b * 2 ^ 16 + c * 2 ^ 8 + d
from_be32 _ = 0

unfoldable pub from_be64 : Bytes → ℕ
unfolding from_be32
from_be64 (a ∷ b ∷ c ∷ d ∷ rest) = from_be32 (a ∷ b ∷ c ∷ d ∷ []) * 2 ^ 32 + from_be32 rest
from_be64 _ = 0

-- binary.PutUvarint, by the rounds that are left after this one: `x >= 0x80` writes the low seven
-- bits with the top bit set, the last byte is `byte(x)`.
unfoldable pub put_uvarint_loop : ℕ → ℕ → Bytes
put_uvarint_loop zero x = (x % 256) ∷ []
put_uvarint_loop (suc k) x =
    let more = put_uvarint_loop k (x / 128) in
    if ltb x 128 then (x % 256) ∷ [] else (x % 128 + 128) ∷ more

-- MaxVarintLen64 is 10 bytes, so nine rounds may follow the first.
unfoldable pub put_uvarint : ℕ → Bytes
unfolding put_uvarint_loop
put_uvarint x = put_uvarint_loop 9 x

-- binary.Uvarint: the value and the number of bytes read, 0 when the slice ended and negative on an
-- overflow of 64 bits. `x | b << s` is a sum, since `x` has no bit from `s` on.
unfoldable pub uvarint_loop : Bytes → ℕ → ℕ → ℕ → ℕ × ℤ
uvarint_loop [] i x s = (0, pos 0)
uvarint_loop (b ∷ rest) i x s =
    let more = uvarint_loop rest (i + 1) ((x + b % 128 * 2 ^ s) % 2 ^ 64) (s + 7) in
    if i == 10
    then (0, negsuc i)
    else if ltb b 128
    then (if i == 9 && ltb 1 b then (0, negsuc i) else (x + b * 2 ^ s, pos (i + 1)))
    else more

unfoldable pub uvarint : Bytes → ℕ × ℤ
unfolding uvarint_loop
uvarint buf = uvarint_loop buf 0 0 0

-- The signed value of a zigzag number: `x := int64(ux >> 1); if ux&1 != 0 { x = ^x }`.
unfoldable pub unzigzag : ℕ → ℤ
unzigzag ux = if ux % 2 == 0 then pos (ux / 2) else negsuc (ux / 2)

-- binary.Varint
unfoldable pub varint : Bytes → ℤ × ℤ
unfolding uvarint unzigzag
varint buf = let (ux, n) = uvarint buf in (unzigzag ux, n)
