-- ===== src/Broker/Writer.antt =====
-- The binary writer of broker.go. The writer is the bytes written so far, and a method maps them to
-- the bytes afterwards.
pub mod Appends
use ome_kafka_bridge.Common.{
  ℕ, ◌+◌, ◌%◌, ◌^◌, Bool, true, false, if◌then◌else◌, List, [], ◌∷◌, ◌++◌, Bytes, length,
}
use ome_kafka_bridge.Common.{ℤ, pos, negsuc, int16, int32, uint8, uint16, uint32, uint64}
use ome_kafka_bridge.Binary.{be16, be32, be64, put_uvarint}

abbrev pub Writer : Type 0
Writer = Bytes

abbrev pub Write : Type 0
Write = Writer → Writer

infixl 5 ◌>>◌
unfoldable pub ◌>>◌ : Write → Write → Write
◌>>◌ f g w = g (f w)

-- A method that writes nothing, the missing branch of an `if`.
unfoldable pub skip : Write
skip w = w

-- `for _, x := range xs { … }` around writes.
unfoldable pub write_each {ℓ} : {A : Type ℓ} → (A → Write) → List A → Write
write_each f [] w = w
write_each f (x ∷ xs) w = write_each f xs (f x w)

-- append(w.buf, s...)
unfoldable pub write_raw : Bytes → Write
write_raw s w = w ++ s

unfoldable pub write_int8 : ℤ → Write
write_int8 v w = w ++ (uint8 v ∷ [])

unfoldable pub write_bool : Bool → Write
write_bool v = if v then write_int8 (pos 1) else write_int8 (pos 0)

unfoldable pub write_int16 : ℤ → Write
write_int16 v w = w ++ be16 (uint16 v)

unfoldable pub write_int32 : ℤ → Write
write_int32 v w = w ++ be32 (uint32 v)

unfoldable pub write_int64 : ℤ → Write
write_int64 v w = w ++ be64 (uint64 v)

unfoldable pub write_uvarint : ℕ → Write
write_uvarint v w = w ++ put_uvarint v

-- int16(n), int32(n) and uint64(n) of a length
abbrev pub int16_of : ℕ → ℤ
int16_of n = int16 n

abbrev pub int32_of : ℕ → ℤ
int32_of n = int32 n

abbrev pub uint64_of : ℕ → ℕ
uint64_of n = n % 2 ^ 64

-- The empty string is written as the null string, length -1.
unfoldable pub write_string : Bytes → Write
write_string [] = write_int16 (negsuc 0)
write_string (c ∷ s) = do write_int16 (int16_of (length (c ∷ s))); write_raw (c ∷ s)

unfoldable pub write_compact_string : Bytes → Write
write_compact_string s = do write_uvarint (uint64_of (length s + 1)); write_raw s

unfoldable pub write_compact_nullable_string : Bytes → Write
write_compact_nullable_string [] = write_uvarint 0
write_compact_nullable_string (c ∷ s) = do
  write_uvarint (uint64_of (length (c ∷ s) + 1))
  write_raw (c ∷ s)
