-- ===== src/Binary/Varint.antt =====
-- Variable-length numbers: what is put is read back, with its length.
use ome_kafka_bridge.Common.{ℕ, zero, suc, ◌+◌, ◌*◌, ◌/◌, ◌%◌, ◌^◌, ◌≤◌, ◌<◌, ◌≡◌, arith, refl}
use ome_kafka_bridge.Common.{◌∷◌, ◌++◌, Bytes, length, ℤ, pos, negsuc, InRange}
use ome_kafka_bridge.Binary.{put_uvarint_loop, put_uvarint, uvarint_loop, uvarint, unzigzag, varint}
use ome_kafka_bridge.Binary.Extent.{pow-add_seven}

pub length-put_uvarint_loop :
    (k v : ℕ) → (1 ≤ length (put_uvarint_loop k v)) × (length (put_uvarint_loop k v) ≤ k + 1)
unfolding put_uvarint_loop
length-put_uvarint_loop zero v = omega arith
length-put_uvarint_loop (suc k) v = ground (arith, length-put_uvarint_loop k (v / 128))

-- One to ten bytes are written.
pub length-put_uvarint : (v : ℕ) → (1 ≤ length (put_uvarint v)) × (length (put_uvarint v) ≤ 10)
unfolding put_uvarint
length-put_uvarint v = length-put_uvarint_loop 9 v

-- The low seven bits of a number and the rest of it, over a scale `p`.
groups_sum : (p w : ℕ) → w % 128 * p + w / 128 * (p * 128) ≡ w * p
groups_sum p w =
    let whole : 128 * (w / 128) + w % 128 ≡ w = omega arith in
    let scaled : (128 * (w / 128) + w % 128) * p ≡ w * p = rw whole refl in omega (arith, scaled)

-- The first group of a number and the number that is left for the next byte.
first_group : (s w : ℕ) → w % 128 * 2 ^ s + w / 128 * 2 ^ (s + 7) ≡ w * 2 ^ s
first_group s w = rw pow-add_seven (groups_sum (2 ^ s) w)

-- The last byte of a number, at any place but past the tenth.
uvarint_last :
    (w i x s : ℕ) (rest : Bytes)
    → w < 128
    → i ≤ 9
    → (i ≡ 9 → w ≤ 1)
    → uvarint_loop (w ∷ rest) i x s ≡ (x + w * 2 ^ s, pos (i + 1))
unfolding uvarint_loop
uvarint_last w i x s rest hw hi top = ground arith

-- A byte with the top bit set, over the group `g`.
uvarint_inner :
    (g i x s : ℕ) (rest : Bytes)
    → g < 128
    → i ≤ 9
    → x + g * 2 ^ s < 2 ^ 64
    → uvarint_loop ((g + 128) ∷ rest) i x s ≡ uvarint_loop rest (i + 1) (x + g * 2 ^ s) (s + 7)
unfolding uvarint_loop
uvarint_inner g i x s rest hg hi fits = ground arith

top_group : (x w : ℕ) → x + w * 2 ^ 63 < 2 ^ 64 → w ≤ 1
top_group x w h = omega arith

uvarint-put_uvarint_loop :
    (k w i x s : ℕ) (rest : Bytes)
    → w < 128 ^ suc k
    → i + k ≡ 9
    → s ≡ 7 * i
    → x + w * 2 ^ s < 2 ^ 64
    → uvarint_loop (put_uvarint_loop k w ++ rest) i x s
      ≡ (x + w * 2 ^ s, pos (i + length (put_uvarint_loop k w)))
unfolding put_uvarint_loop
uvarint-put_uvarint_loop zero w i x s rest hw hi hs fits =
    let full : s ≡ 63 = omega arith in
    let byte : w % 256 ≡ w = omega arith in
    rw byte
      (uvarint_last w i x s rest (omega arith) (omega arith) (λ _. top_group x w (rw full at fits)))
uvarint-put_uvarint_loop (suc k) w i x s rest hw hi hs fits = ground (
  arith,
  uvarint_last w i x s rest,
  first_group s w,
  uvarint_inner (w % 128) i x s (put_uvarint_loop k (w / 128) ++ rest),
  uvarint-put_uvarint_loop k (w / 128) (i + 1) (x + w % 128 * 2 ^ s) (s + 7) rest (omega arith),
)

-- A number below 2 ^ 64 is read back from what was put, whatever follows it.
pub uvarint-put_uvarint :
    (v : ℕ) (rest : Bytes)
    → v < 2 ^ 64
    → uvarint (put_uvarint v ++ rest) ≡ (v, pos (length (put_uvarint v)))
unfolding uvarint put_uvarint
uvarint-put_uvarint v rest h =
    ground (arith, uvarint-put_uvarint_loop 9 v 0 0 0 rest (omega arith) refl refl (omega arith))

-- The zigzag number of a signed value, which a producer sends.
unfoldable pub zigzag : ℤ → ℕ
zigzag (pos n) = 2 * n
zigzag (negsuc n) = 2 * n + 1

pub zigzag-lt : (z : ℤ) → InRange (2 ^ 63) z → zigzag z < 2 ^ 64
unfolding zigzag
zigzag-lt (pos n) h = omega arith
zigzag-lt (negsuc n) h = omega arith

pub unzigzag-zigzag : (z : ℤ) → unzigzag (zigzag z) ≡ z
unfolding zigzag unzigzag
unzigzag-zigzag (pos n) = ground arith
unzigzag-zigzag (negsuc n) = ground arith

pub varint-put_uvarint :
    (z : ℤ) (rest : Bytes)
    → InRange (2 ^ 63) z
    → varint (put_uvarint (zigzag z) ++ rest) ≡ (z, pos (length (put_uvarint (zigzag z))))
unfolding varint
varint-put_uvarint z rest h =
    rw (uvarint-put_uvarint (zigzag z) rest (zigzag-lt z h), unzigzag-zigzag)
