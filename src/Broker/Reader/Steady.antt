-- ===== src/Broker/Reader/Steady.antt =====
-- No reading action leaves its buffer or moves back in it, and none is stuck.
use ome_kafka_bridge.Common.{
  ℕ, ◌+◌, ◌-◌, ◌^◌, ◌≤◌, ◌<◌, ◌≡◌, ◌∙◌, refl, ap, arith, Bool, true, false, if◌then◌else◌, length,
  length-drop, ℤ, pos, negsuc, InRange, int16, int32, int64, int64-InRange,
}
use ome_kafka_bridge.Binary.{from_be16, from_be32, from_be64, varint}
use ome_kafka_bridge.Binary.Extent.{uvarint_extent, varint-InRange}
use ome_kafka_bridge.Broker.Outcome.{Outcome, done, panic, stuck, bind}
use ome_kafka_bridge.Broker.Reader.{
  Reader, Read, ◌>>=◌, pure, ahead, remaining, read_int8, read_int16, read_int32, read_int64,
  read_slice, read_string, read_bytes, read_uvarint, read_varint, read_compact_string,
  read_compact_nullable_string, read_var_bytes, int_pred,
}

-- `r'` stands in the same buffer, at `r` or behind it.
pub record Ahead (r r' : Reader) : Type 0 where
  pub buf : r'.buf ≡ r.buf
  pub onward : r.offset ≤ r'.offset
  pub within : r'.offset ≤ length r'.buf

-- A position in a Go slice, with at most `n` bytes behind it.
pub record IsValid (n : ℕ) (r : Reader) : Type 0 where
  pub within : r.offset ≤ length r.buf
  pub short : length r.buf < 2 ^ 63
  pub left : remaining r ≤ n

-- What an action may come to from `r`: a value with the property, and a reader ahead; or a panic.
abbrev pub Ends {ℓ} : {A : Type ℓ} → (A → Type 0) → Reader → Outcome (A × Reader) → Type 0
Ends P r (done (v, r')) = P v × Ahead r r'
Ends P r panic = Unit {0}
Ends P r stuck = ⊥

pub record Steady {ℓ} {A : Type ℓ} (n : ℕ) (P : A → Type 0) (p : Read A) : Type ℓ where
  pub at : (r : Reader) → IsValid n r → Ends P r (p r)

abbrev pub Any {ℓ} : {A : Type ℓ} → A → Type 0
Any v = Unit {0}

abbrev pub IsInt : ℤ → Type 0
IsInt = InRange (2 ^ 63)

Ahead-trans : {r r' r'' : Reader} → Ahead r r' → Ahead r' r'' → Ahead r r''
Ahead-trans h k = record {
  buf = k.buf ∙ h.buf;
  onward = omega (arith, h.onward, k.onward);
  within = k.within;
}

pub Ahead-IsValid : (n : ℕ) {r r' : Reader} → IsValid n r → Ahead r r' → IsValid n r'
Ahead-IsValid n v h = record {
  within = h.within;
  short = rw h.buf v.short;
  left = omega (arith, v.left, ap length h.buf, h.onward);
}

pub Ends-trans {ℓ} :
    {A : Type ℓ} (P : A → Type 0) (r r' : Reader) (o : Outcome (A × Reader))
    → Ahead r r'
    → Ends P r' o
    → Ends P r o
Ends-trans P r r' (done (v, r'')) h (pv, k) = (pv, Ahead-trans h k)
Ends-trans P r r' panic h k = k
Ends-trans P r r' stuck h k = k

bind-Ends {ℓ κ} :
    {A : Type ℓ} {B : Type κ} (n : ℕ) (P : A → Type 0) (Q : B → Type 0) (f : A → Read B)
    (r : Reader) (o : Outcome (A × Reader))
    → IsValid n r
    → Ends P r o
    → ((v : A) → P v → Steady n Q (f v))
    → Ends Q r (bind o (λ (a, r'). f a r'))
bind-Ends n P Q f r (done (v, r')) valid (pv, h) k =
    Ends-trans Q r r' (f v r') h ((k v pv).at r' (Ahead-IsValid n valid h))
bind-Ends n P Q f r panic valid h k = tt
bind-Ends n P Q f r stuck valid h k = h

pub Steady-bind {ℓ κ} :
    {A : Type ℓ} {B : Type κ} {n : ℕ} (P : A → Type 0) {Q : B → Type 0} {p : Read A}
    (f : A → Read B)
    → Steady n P p
    → ((v : A) → P v → Steady n Q (f v))
    → Steady n Q (p >>= f)
unfolding ◌>>=◌
Steady-bind {n} P {Q} {p} f hp hf = record {
  at = λ r valid. bind-Ends n P Q f r (p r) valid (hp.at r valid) hf;
}

pub Steady-pure {ℓ} : {A : Type ℓ} {n : ℕ} (P : A → Type 0) (a : A) → P a → Steady n P (pure a)
Steady-pure P a h = record {
  at = λ r valid. (h, record { buf = refl; onward = omega arith; within = valid.within });
}

pub Steady-if {ℓ} :
    {A : Type ℓ} {n : ℕ} {P : A → Type 0} (b : Bool) {p q : Read A}
    → Steady n P p
    → Steady n P q
    → Steady n P (if b then p else q)
Steady-if true hp hq = hp
Steady-if false hp hq = hq

Ends-weaken {ℓ} :
    {A : Type ℓ} (P : A → Type 0) (r : Reader) (o : Outcome (A × Reader))
    → Ends P r o
    → Ends Any r o
Ends-weaken P r (done (v, r')) (_, h) = (tt, h)
Ends-weaken P r panic h = tt
Ends-weaken P r stuck h = h

pub Steady-weaken {ℓ} :
    {A : Type ℓ} {n : ℕ} {P : A → Type 0} {p : Read A} → Steady n P p → Steady n Any p
Steady-weaken {P} {p} h = record { at = λ r valid. Ends-weaken P r (p r) (h.at r valid) }

int16-in : (n : ℕ) → IsInt (int16 n)
unfolding int16
int16-in n = ground arith

int32-in : (n : ℕ) → IsInt (int32 n)
unfolding int32
int32-in n = ground arith

module _ {n : ℕ} where
  pub Steady-read_int8 : Steady n Any read_int8
  unfolding read_int8
  Steady-read_int8 = record { at = λ r valid. ground arith }

  pub Steady-read_int16 : Steady n IsInt read_int16
  unfolding read_int16
  Steady-read_int16 = record { at = λ r valid. ground (arith, int16-in (from_be16 (ahead r))) }

  pub Steady-read_int32 : Steady n IsInt read_int32
  unfolding read_int32
  Steady-read_int32 = record { at = λ r valid. ground (arith, int32-in (from_be32 (ahead r))) }

  pub Steady-read_int64 : Steady n IsInt read_int64
  unfolding read_int64
  Steady-read_int64 = record { at = λ r valid. ground (arith, int64-InRange (from_be64 (ahead r))) }

  pub Steady-read_slice : (z : ℤ) → IsInt z → Steady n Any (read_slice z)
  unfolding read_slice int64
  Steady-read_slice (negsuc k) h = record { at = λ r valid. ground arith }
  Steady-read_slice (pos k) h = record { at = λ r valid. ground arith }

  pub Steady-read_uvarint : Steady n Any read_uvarint
  unfolding read_uvarint
  Steady-read_uvarint = record {
    at = λ r valid. ground (arith, uvarint_extent (ahead r), length-drop r.offset r.buf);
  }

  pub Steady-read_varint : Steady n IsInt read_varint
  unfolding read_varint varint
  Steady-read_varint = record {
    at = λ r valid.
        ground
          (arith, uvarint_extent (ahead r), length-drop r.offset r.buf, varint-InRange (ahead r));
  }

  pub Steady-read_string : Steady n Any read_string
  unfolding read_string
  Steady-read_string = Steady-bind IsInt _ Steady-read_int16 Steady-read_slice

  pub Steady-read_bytes : Steady n Any read_bytes
  unfolding read_bytes
  Steady-read_bytes = Steady-bind IsInt _ Steady-read_int32 Steady-read_slice

  pub Steady-read_compact_string : Steady n Any read_compact_string
  unfolding read_compact_string
  Steady-read_compact_string =
      Steady-bind Any _ Steady-read_uvarint
        (λ v _. Steady-read_slice (int_pred v) (int64-InRange (v + 2 ^ 64 - 1)))

  pub Steady-read_compact_nullable_string : Steady n Any read_compact_nullable_string
  unfolding read_compact_nullable_string
  Steady-read_compact_nullable_string =
      Steady-bind Any _ Steady-read_uvarint
        (λ v _. Steady-read_slice (int_pred v) (int64-InRange (v + 2 ^ 64 - 1)))

  pub Steady-read_var_bytes : Steady n Any read_var_bytes
  unfolding read_var_bytes
  Steady-read_var_bytes = Steady-bind IsInt _ Steady-read_varint Steady-read_slice
