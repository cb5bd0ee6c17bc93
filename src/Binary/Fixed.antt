-- ===== src/Binary/Fixed.antt =====
-- Big-endian numbers: what is put is read back.
use ome_kafka_bridge.Common.{ℕ, ◌+◌, ◌*◌, ◌/◌, ◌%◌, ◌^◌, ◌<◌, ◌≡◌, arith, refl}
use ome_kafka_bridge.Common.{[], ◌++◌, Bytes, length}
use ome_kafka_bridge.Binary.{be16, be32, be64, from_be16, from_be32, from_be64}

pub length-be16 : (v : ℕ) → length (be16 v) ≡ 2
unfolding be16
length-be16 v = refl

pub length-be32 : (v : ℕ) → length (be32 v) ≡ 4
unfolding be32
length-be32 v = refl

pub length-be64 : (v : ℕ) → length (be64 v) ≡ 8
unfolding be64
length-be64 v = refl

pub from_be16-be16 : (v : ℕ) (rest : Bytes) → v < 2 ^ 16 → from_be16 (be16 v ++ rest) ≡ v
unfolding be16 from_be16
from_be16-be16 v rest h = omega arith

pub from_be32-be32 : (v : ℕ) (rest : Bytes) → v < 2 ^ 32 → from_be32 (be32 v ++ rest) ≡ v
unfolding be32 from_be32
from_be32-be32 v rest h = omega arith

from_be64_halves :
    (hi lo : ℕ) (rest : Bytes)
    → from_be64 ((be32 hi ++ be32 lo) ++ rest)
      ≡ from_be32 (be32 hi ++ []) * 2 ^ 32 + from_be32 (be32 lo ++ rest)
unfolding be32 from_be64
from_be64_halves hi lo rest = refl

pub from_be64-be64 : (v : ℕ) (rest : Bytes) → v < 2 ^ 64 → from_be64 (be64 v ++ rest) ≡ v
from_be64-be64 v rest h =
    unfold be64 in
    omega (
      arith,
      from_be64_halves (v / 2 ^ 32) (v % 2 ^ 32) rest,
      from_be32-be32 (v / 2 ^ 32) [] (omega arith),
      from_be32-be32 (v % 2 ^ 32) rest (omega arith),
    )
