-- ===== src/Broker/Reader/Parses.antt =====
-- What it means that a reading action reads a value from its encoding, with a rule for each method
-- of the reader and for a sequence.
use ome_kafka_bridge.Common.{ℕ, ◌+◌, ◌*◌, ◌%◌, ◌^◌, ◌<◌, ◌≡◌, refl, subst, arith}
use ome_kafka_bridge.Common.{
  [], ◌∷◌, ◌++◌, Bytes, length, length-append, take-append, append_assoc, append-nil,
}
use ome_kafka_bridge.Common.{
  ℤ, pos, InRange, int16, int32, int64, uint8, uint16, uint32, uint64, uint16-lt, uint32-lt,
  uint64-lt, int16-uint16, int32-uint32, int64-uint64, int8-uint8,
}
use ome_kafka_bridge.Binary.{be16, be32, be64, from_be16, from_be32, from_be64, put_uvarint}
use ome_kafka_bridge.Binary.Fixed.{
  from_be16-be16, from_be32-be32, from_be64-be64, length-be16, length-be32, length-be64,
}
use ome_kafka_bridge.Binary.Varint.{uvarint-put_uvarint, varint-put_uvarint, zigzag}
use ome_kafka_bridge.Broker.Outcome.{done}
use ome_kafka_bridge.Broker.Reader.{
  Reader, Read, ◌>>=◌, pure, advance, read_int8, read_int16, read_int32, read_int64, read_slice,
  read_string, read_bytes, read_uvarint, read_varint, read_compact_string, read_var_bytes, int_pred,
  read_compact_nullable_string,
}
use ome_kafka_bridge.Broker.Reader.View.{IsAt, IsAt-length, IsAt-advance}

-- From any reader that stands before the encoding, `p` returns the value and stands behind it.
pub record Parses {ℓ} {A : Type ℓ} (p : Read A) (enc : Bytes) (v : A) : Type ℓ where
  pub runs : (r : Reader) (s : Bytes) → IsAt r (enc ++ s) → p r ≡ done (v, advance (length enc) r)

pub Parses-pure {ℓ} : {A : Type ℓ} (a : A) → Parses (pure a) [] a
Parses-pure a = record { runs = λ r s h. ground arith }

pub Parses-bind {ℓ κ} :
    {A : Type ℓ} {B : Type κ} {p : Read A} (f : A → Read B) {e e' : Bytes} {a : A} {b : B}
    → Parses p e a
    → Parses (f a) e' b
    → Parses (p >>= f) (e ++ e') b
unfolding ◌>>=◌
Parses-bind f {e} {e'} hp hf = record {
  runs = λ r s h.
      let h' = rw append_assoc at h in
      rw (hp.runs r (e' ++ s) h', hf.runs (advance (length e) r) s (IsAt-advance e (e' ++ s) h'))
        (ground (arith, length-append e e'));
}

-- The last action of a sequence reads the rest of the encoding.
pub Parses-then {ℓ κ} :
    {A : Type ℓ} {B : Type κ} {p : Read A} (g : A → B) {e : Bytes} {a : A}
    → Parses p e a
    → Parses (p >>= λ x. pure (g x)) e (g a)
Parses-then {p} g {e} {a} hp =
    subst (λ t. Parses (p >>= λ x. pure (g x)) t (g a)) (append-nil e)
      (Parses-bind (λ x. pure (g x)) hp (Parses-pure (g a)))

module _ (z : ℤ) where
  pub Parses-read_int8 : InRange (2 ^ 7) z → Parses read_int8 (uint8 z ∷ []) z
  unfolding read_int8
  Parses-read_int8 hz = record {
    runs = λ r s h. ground (arith, h.rest, IsAt-length h, int8-uint8 z hz);
  }

  pub Parses-read_int16 : InRange (2 ^ 15) z → Parses read_int16 (be16 (uint16 z)) z
  unfolding read_int16
  Parses-read_int16 hz = record {
    runs = λ r s h. ground (
      arith,
      h.rest,
      IsAt-length h,
      length-append (be16 (uint16 z)) s,
      length-be16 (uint16 z),
      from_be16-be16 (uint16 z) s (uint16-lt z),
      int16-uint16 z hz,
    );
  }

  pub Parses-read_int32 : InRange (2 ^ 31) z → Parses read_int32 (be32 (uint32 z)) z
  unfolding read_int32
  Parses-read_int32 hz = record {
    runs = λ r s h. ground (
      arith,
      h.rest,
      IsAt-length h,
      length-append (be32 (uint32 z)) s,
      length-be32 (uint32 z),
      from_be32-be32 (uint32 z) s (uint32-lt z),
      int32-uint32 z hz,
    );
  }

  pub Parses-read_int64 : InRange (2 ^ 63) z → Parses read_int64 (be64 (uint64 z)) z
  unfolding read_int64
  Parses-read_int64 hz = record {
    runs = λ r s h. ground (
      arith,
      h.rest,
      IsAt-length h,
      length-append (be64 (uint64 z)) s,
      length-be64 (uint64 z),
      from_be64-be64 (uint64 z) s (uint64-lt z),
      int64-uint64 z hz,
    );
  }

  pub Parses-read_varint : InRange (2 ^ 63) z → Parses read_varint (put_uvarint (zigzag z)) z
  unfolding read_varint
  Parses-read_varint hz = record {
    runs = λ r s h. ground (arith, h.rest, varint-put_uvarint z s hz);
  }

pub Parses-read_uvarint : (v : ℕ) → v < 2 ^ 64 → Parses read_uvarint (put_uvarint v) v
unfolding read_uvarint
Parses-read_uvarint v hv = record {
  runs = λ r s h. ground (arith, h.rest, uvarint-put_uvarint v s hv);
}

-- The bytes of a field, once its length is read.
pub Parses-read_slice : (b : Bytes) → Parses (read_slice (pos (length b))) b b
unfolding read_slice
Parses-read_slice b = record {
  runs = λ r s h.
      unfold int64 in ground (arith, h.rest, IsAt-length h, length-append b s, take-append b s);
}

pub Parses-read_string :
    (b : Bytes) → length b < 2 ^ 15 → Parses read_string (be16 (uint16 (pos (length b))) ++ b) b
unfolding read_string
Parses-read_string b hb =
    Parses-bind _ (Parses-read_int16 (pos (length b)) hb) (Parses-read_slice b)

pub Parses-read_bytes :
    (b : Bytes) → length b < 2 ^ 31 → Parses read_bytes (be32 (uint32 (pos (length b))) ++ b) b
unfolding read_bytes
Parses-read_bytes b hb = Parses-bind _ (Parses-read_int32 (pos (length b)) hb) (Parses-read_slice b)

pub Parses-read_var_bytes :
    (b : Bytes)
    → length b < 2 ^ 63
    → Parses read_var_bytes (put_uvarint (zigzag (pos (length b))) ++ b) b
unfolding read_var_bytes
Parses-read_var_bytes b hb =
    Parses-bind _ (Parses-read_varint (pos (length b)) hb) (Parses-read_slice b)

pub int_pred-suc : (n : ℕ) → n < 2 ^ 63 → int_pred (n + 1) ≡ pos n
unfolding int64
int_pred-suc n h = ground arith

pub Parses-read_compact_string :
    (b : Bytes) → length b < 2 ^ 63 → Parses read_compact_string (put_uvarint (length b + 1) ++ b) b
unfolding read_compact_string
Parses-read_compact_string b hb =
    Parses-bind _ (Parses-read_uvarint (length b + 1) (omega arith))
      (rw (int_pred-suc (length b) hb) (Parses-read_slice b))

pub Parses-read_compact_nullable_string :
    (b : Bytes)
    → length b < 2 ^ 63
    → Parses read_compact_nullable_string (put_uvarint (length b + 1) ++ b) b
unfolding read_compact_nullable_string
Parses-read_compact_nullable_string b hb =
    Parses-bind _ (Parses-read_uvarint (length b + 1) (omega arith))
      (rw (int_pred-suc (length b) hb) (Parses-read_slice b))

-- A fixed-width field with any bit pattern, whose value the caller drops.
pub Parses-read_int16_any : (n : ℕ) → Parses read_int16 (be16 n) (int16 (n % 2 ^ 16))
unfolding read_int16
Parses-read_int16_any n = record {
  runs = λ r s h. unfold be16 from_be16 in ground (arith, h.rest, IsAt-length h);
}

pub Parses-read_int32_any : (n : ℕ) → Parses read_int32 (be32 n) (int32 (n % 2 ^ 32))
unfolding read_int32
Parses-read_int32_any n = record {
  runs = λ r s h. unfold be32 from_be32 in ground (arith, h.rest, IsAt-length h);
}

pub Parses-read_int64_any : (n : ℕ) → Parses read_int64 (be64 n) (int64 (n % 2 ^ 64))
unfolding read_int64
Parses-read_int64_any n = record {
  runs = λ r s h. unfold be64 from_be64 in ground (arith, h.rest, IsAt-length h);
}

-- Fixed-width fields by their bytes.
pub Parses-read_int16_bytes : (a b : ℕ) → Parses read_int16 (a ∷ b ∷ []) (int16 (a * 256 + b))
unfolding read_int16
Parses-read_int16_bytes a b = record {
  runs = λ r s h. unfold from_be16 in ground (arith, h.rest, IsAt-length h);
}

pub Parses-read_int32_bytes :
    (a b c d : ℕ)
    → Parses read_int32 (a ∷ b ∷ c ∷ d ∷ []) (int32 (a * 2 ^ 24 + b * 2 ^ 16 + c * 2 ^ 8 + d))
unfolding read_int32
Parses-read_int32_bytes a b c d = record {
  runs = λ r s h. unfold from_be32 in ground (arith, h.rest, IsAt-length h);
}

pub Parses-read_int64_bytes :
    (a b c d e f g h : ℕ)
    → Parses read_int64
        (a ∷ b ∷ c ∷ d ∷ e ∷ f ∷ g ∷ h ∷ [])
        (int64 (from_be64 (a ∷ b ∷ c ∷ d ∷ e ∷ f ∷ g ∷ h ∷ [])))
unfolding read_int64
Parses-read_int64_bytes a b c d e f g h = record {
  runs = λ r s at. unfold from_be64 in ground (arith, at.rest, IsAt-length at);
}

-- A reader at the start of a buffer.
abbrev pub start : Bytes → Reader
start buf = record { buf = buf; offset = 0 }

pub Parses-whole {ℓ} :
    {A : Type ℓ} {p : Read A} {enc : Bytes} {v : A}
    → Parses p enc v
    → length enc < 2 ^ 63
    → p (start enc) ≡ done (v, advance (length enc) (start enc))
Parses-whole {enc} h short =
    h.runs (start enc) []
      (rw append-nil (record { rest = refl; within = omega arith; short = short }))
