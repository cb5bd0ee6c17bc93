-- ===== src/Common/Int.antt =====
-- Signed machine integers. `negsuc n` is -(n + 1). A value of type int8, int16, int32 or int64 is
-- the integer; what a wire or a conversion gives is its bit pattern, a number below 2 ^ w.
use Prim.Native.Nat.{ℕ, ◌+◌, ◌-◌, ◌*◌, ◌%◌, ◌^◌, ◌<◌}
use mathlib.Core.Path.{◌≡◌}
use mathlib.Core.Bool.{Bool, true, false}
use native.Mathlib.Omega.{arith}
use ome_kafka_bridge.Common.Tests.{ltb, leb, ◌==◌, if◌then◌else◌}

pub data ℤ : Type 0 where
  pos : ℕ → ℤ
  negsuc : ℕ → ℤ

-- The rounds of `for i := 0; i < n; i++`.
abbrev pub pos_part : ℤ → ℕ
pos_part (pos n) = n
pos_part (negsuc n) = 0

-- `z == n` and `z >= n` for a literal n
abbrev pub is : ℕ → ℤ → Bool
is n (pos k) = k == n
is n (negsuc _) = false

abbrev pub at_least : ℕ → ℤ → Bool
at_least n (pos k) = leb n k
at_least n (negsuc _) = false

-- Sums, differences and the order of integers that do not leave the range of their type.
abbrev pub add : ℤ → ℕ → ℤ
add (pos n) m = pos (n + m)
add (negsuc n) m = if ltb n m then pos (m - n - 1) else negsuc (n - m)

abbrev pub minus : ℤ → ℕ → ℤ
minus (pos n) m = if leb m n then pos (n - m) else negsuc (m - n - 1)
minus (negsuc n) m = negsuc (n + m)

abbrev pub sub : ℤ → ℤ → ℤ
sub z (pos m) = minus z m
sub z (negsuc m) = add z (m + 1)

abbrev pub less : ℤ → ℤ → Bool
less (pos n) (pos m) = ltb n m
less (pos n) (negsuc m) = false
less (negsuc n) (pos m) = true
less (negsuc n) (negsuc m) = ltb m n

-- -2 ^ w / 2 ≤ z < 2 ^ w / 2, by the half range.
abbrev pub InRange : ℕ → ℤ → Type 0
InRange half (pos n) = n < half
InRange half (negsuc n) = n < half

-- The signed value of a bit pattern; Go's conversions keep the low bits of a wider number.
abbrev signed : ℕ → ℕ → ℤ
signed half n = if ltb n half then pos n else negsuc (2 * half - 1 - n)

unfoldable pub int8 : ℕ → ℤ
int8 n = signed (2 ^ 7) (n % 2 ^ 8)

unfoldable pub int16 : ℕ → ℤ
int16 n = signed (2 ^ 15) (n % 2 ^ 16)

unfoldable pub int32 : ℕ → ℤ
int32 n = signed (2 ^ 31) (n % 2 ^ 32)

unfoldable pub int64 : ℕ → ℤ
int64 n = signed (2 ^ 63) (n % 2 ^ 64)

-- The bit pattern of a signed value: Go's conversions uint16(v), uint32(v), uint64(v).
unfoldable pub uint8 : ℤ → ℕ
uint8 (pos n) = n % 2 ^ 8
uint8 (negsuc n) = 2 ^ 8 - 1 - n % 2 ^ 8

unfoldable pub uint16 : ℤ → ℕ
uint16 (pos n) = n % 2 ^ 16
uint16 (negsuc n) = 2 ^ 16 - 1 - n % 2 ^ 16

unfoldable pub uint32 : ℤ → ℕ
uint32 (pos n) = n % 2 ^ 32
uint32 (negsuc n) = 2 ^ 32 - 1 - n % 2 ^ 32

unfoldable pub uint64 : ℤ → ℕ
uint64 (pos n) = n % 2 ^ 64
uint64 (negsuc n) = 2 ^ 64 - 1 - n % 2 ^ 64

pub int8-uint8 : (z : ℤ) → InRange (2 ^ 7) z → int8 (uint8 z) ≡ z
unfolding int8 uint8
int8-uint8 (pos n) h = ground arith
int8-uint8 (negsuc n) h = ground arith

pub int16-uint16 : (z : ℤ) → InRange (2 ^ 15) z → int16 (uint16 z) ≡ z
unfolding int16 uint16
int16-uint16 (pos n) h = ground arith
int16-uint16 (negsuc n) h = ground arith

pub int32-uint32 : (z : ℤ) → InRange (2 ^ 31) z → int32 (uint32 z) ≡ z
unfolding int32 uint32
int32-uint32 (pos n) h = ground arith
int32-uint32 (negsuc n) h = ground arith

pub int64-uint64 : (z : ℤ) → InRange (2 ^ 63) z → int64 (uint64 z) ≡ z
unfolding int64 uint64
int64-uint64 (pos n) h = ground arith
int64-uint64 (negsuc n) h = ground arith

pub uint16-lt : (z : ℤ) → uint16 z < 2 ^ 16
unfolding uint16
uint16-lt (pos n) = omega arith
uint16-lt (negsuc n) = omega arith

pub uint32-lt : (z : ℤ) → uint32 z < 2 ^ 32
unfolding uint32
uint32-lt (pos n) = omega arith
uint32-lt (negsuc n) = omega arith

pub uint64-lt : (z : ℤ) → uint64 z < 2 ^ 64
unfolding uint64
uint64-lt (pos n) = omega arith
uint64-lt (negsuc n) = omega arith

pub int16-InRange : (n : ℕ) → InRange (2 ^ 15) (int16 n)
unfolding int16
int16-InRange n = ground arith

pub int32-InRange : (n : ℕ) → InRange (2 ^ 31) (int32 n)
unfolding int32
int32-InRange n = ground arith

pub int64-InRange : (n : ℕ) → InRange (2 ^ 63) (int64 n)
unfolding int64
int64-InRange n = ground arith
