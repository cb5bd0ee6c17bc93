-- ===== src/Binary/Extent.antt =====
-- A variable-length number is taken from the slice that it is read from, and fits its type.
use ome_kafka_bridge.Common.{
  ℕ, ◌+◌, ◌*◌, ◌%◌, ◌^◌, ◌≤◌, ◌<◌, ◌≡◌, arith, refl, [], ◌∷◌, Bytes, length, pos_part, InRange,
}
use ome_kafka_bridge.Binary.{uvarint_loop, uvarint, unzigzag, varint}
use native.Mathlib.Nat.{pow-le-pow_right}
use native.Mathlib.Numerals.{towards_suc}

uvarint_loop_extent :
    (buf : Bytes) (i x s : ℕ) → pos_part (uvarint_loop buf i x s).1 ≤ i + length buf
unfolding uvarint_loop
uvarint_loop_extent [] i x s = omega arith
uvarint_loop_extent (b ∷ rest) i x s =
    ground (arith, uvarint_loop_extent rest (i + 1) ((x + b % 128 * 2 ^ s) % 2 ^ 64) (s + 7))

pub uvarint_extent : (buf : Bytes) → pos_part (uvarint buf).1 ≤ length buf
unfolding uvarint
uvarint_extent buf = omega (arith, uvarint_loop_extent buf 0 0 0)

pub pow-add_seven : (s : ℕ) → 2 ^ (s + 7) ≡ 2 ^ s * 128
pow-add_seven s = simp towards_suc (omega arith)

-- A group that is not the last leaves the accumulated value below its next bit.
group_fits : (x b s : ℕ) → x < 2 ^ s → (x + b % 128 * 2 ^ s) % 2 ^ 64 < 2 ^ (s + 7)
group_fits x b s h =
    let g : b % 128 * 2 ^ s ≤ 127 * 2 ^ s = grind arith in omega (arith, pow-add_seven s)

low_fits : (x b s : ℕ) → s ≤ 56 → b < 128 → x < 2 ^ s → x + b * 2 ^ s < 2 ^ 64
low_fits x b s hs hb h =
    let g : b * 2 ^ s ≤ 127 * 2 ^ s = grind arith in
    let p : 2 ^ (s + 7) ≤ 2 ^ 63 = pow-le-pow_right (omega arith) {j = 63} (omega arith) in
    omega (arith, pow-add_seven s)

top_fits : (x b s : ℕ) → s ≡ 63 → b ≤ 1 → x < 2 ^ s → x + b * 2 ^ s < 2 ^ 64
top_fits x b s hs hb h = let h' : x < 2 ^ 63 = rw hs at h in rw hs (omega arith)

uvarint_loop-lt :
    (buf : Bytes) (i x s : ℕ) → i ≤ 10 → s ≡ 7 * i → x < 2 ^ s → (uvarint_loop buf i x s).0 < 2 ^ 64
unfolding uvarint_loop
uvarint_loop-lt [] i x s hi hs h = omega arith
uvarint_loop-lt (b ∷ rest) i x s hi hs h = ground (
  arith,
  low_fits x b s,
  top_fits x b s,
  group_fits x b s h,
  uvarint_loop-lt rest (i + 1) ((x + b % 128 * 2 ^ s) % 2 ^ 64) (s + 7),
)

pub uvarint-lt : (buf : Bytes) → (uvarint buf).0 < 2 ^ 64
unfolding uvarint
uvarint-lt buf = uvarint_loop-lt buf 0 0 0 (omega arith) refl (omega arith)

pub varint-InRange : (buf : Bytes) → InRange (2 ^ 63) (varint buf).0
unfolding varint unzigzag
varint-InRange buf = ground (arith, uvarint-lt buf)
