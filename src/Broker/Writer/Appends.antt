-- ===== src/Broker/Writer/Appends.antt =====
-- Every method of the writer keeps what is written and appends an encoding.
use ome_kafka_bridge.Common.{
  ℕ, ◌+◌, ◌^◌, ◌<◌, ◌≡◌, ◌≢◌, sym, refl, arith, true, false, Bool, if◌then◌else◌,
}
use ome_kafka_bridge.Common.{
  List, [], ◌∷◌, ◌++◌, Bytes, length, All, append_assoc, append-nil, ℤ, pos, int16, uint8, uint16,
  uint32, uint64,
}
use ome_kafka_bridge.Binary.{be16, be32, be64, put_uvarint}
use ome_kafka_bridge.Broker.Writer.{
  Writer, Write, ◌>>◌, skip, write_each, write_raw, write_int8, write_bool, write_int16,
  write_int32, write_int64, write_uvarint, write_string, write_compact_string, int16_of, uint64_of,
}

pub record Appends (f : Write) (enc : Bytes) : Type 0 where
  pub runs : (w : Writer) → f w ≡ w ++ enc

pub Appends-skip : Appends skip []
unfolding skip
Appends-skip = record { runs = λ w. sym (append-nil w) }

pub Appends-then :
    {f g : Write} {a b : Bytes} → Appends f a → Appends g b → Appends (f >> g) (a ++ b)
unfolding ◌>>◌
Appends-then {a} {b} hf hg = record {
  runs = λ w. rw (hf.runs w, hg.runs (w ++ a)) (append_assoc w a b);
}

pub Appends-raw : (s : Bytes) → Appends (write_raw s) s
unfolding write_raw
Appends-raw s = record { runs = λ w. refl }

pub Appends-int8 : (v : ℤ) → Appends (write_int8 v) (uint8 v ∷ [])
unfolding write_int8
Appends-int8 v = record { runs = λ w. refl }

pub Appends-int16 : (v : ℤ) → Appends (write_int16 v) (be16 (uint16 v))
unfolding write_int16
Appends-int16 v = record { runs = λ w. refl }

pub Appends-int32 : (v : ℤ) → Appends (write_int32 v) (be32 (uint32 v))
unfolding write_int32
Appends-int32 v = record { runs = λ w. refl }

pub Appends-int64 : (v : ℤ) → Appends (write_int64 v) (be64 (uint64 v))
unfolding write_int64
Appends-int64 v = record { runs = λ w. refl }

pub Appends-uvarint : (v : ℕ) → Appends (write_uvarint v) (put_uvarint v)
unfolding write_uvarint
Appends-uvarint v = record { runs = λ w. refl }

pub Appends-bool : (b : Bool) → Appends (write_bool b) ((if b then 1 else 0) ∷ [])
unfolding write_bool write_int8 uint8
Appends-bool true = record { runs = λ w. refl }
Appends-bool false = record { runs = λ w. refl }

pub Appends-compact_string :
    (s : Bytes)
    → length s < 2 ^ 63
    → Appends (write_compact_string s) (put_uvarint (length s + 1) ++ s)
unfolding write_compact_string
Appends-compact_string s h =
    let e : uint64_of (length s + 1) ≡ length s + 1 = omega arith in
    rw e (Appends-then (Appends-uvarint (length s + 1)) (Appends-raw s))

int16_of-small : (n : ℕ) → n < 2 ^ 15 → int16_of n ≡ pos n
unfolding int16
int16_of-small n h = ground arith

pub Appends-string :
    (s : Bytes)
    → s ≢ []
    → length s < 2 ^ 15
    → Appends (write_string s) (be16 (uint16 (pos (length s))) ++ s)
unfolding write_string
Appends-string [] ne h = absurd (ne refl)
Appends-string (c ∷ s) ne h =
    rw (int16_of-small (length (c ∷ s)) h)
      (Appends-then (Appends-int16 (pos (length (c ∷ s)))) (Appends-raw (c ∷ s)))

-- The encodings of the items, one behind the other.
abbrev pub concat_map {ℓ} : {A : Type ℓ} → (A → Bytes) → List A → Bytes
concat_map f [] = []
concat_map f (x ∷ xs) = f x ++ concat_map f xs

pub Appends-each {ℓ κ} :
    {A : Type ℓ} (P : A → Type κ) (f : A → Write) (enc : A → Bytes) (xs : List A)
    → ((x : A) → P x → Appends (f x) (enc x))
    → All P xs
    → Appends (write_each f xs) (concat_map enc xs)
unfolding write_each
Appends-each P f enc [] h all = record { runs = λ w. sym (append-nil w) }
Appends-each P f enc (x ∷ xs) h (hx, all) = record {
  runs = λ w.
      rw ((h x hx).runs w, (Appends-each P f enc xs h all).runs (w ++ enc x))
        (append_assoc w (enc x) (concat_map enc xs));
}
