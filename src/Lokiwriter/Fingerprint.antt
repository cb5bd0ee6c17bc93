-- ===== src/Lokiwriter/Fingerprint.antt =====
-- When two label sets have the same fingerprint, and so share a stream.
use ome_kafka_bridge.Common.{
  ◌≡◌, true, false, [], ◌∷◌, ◌++◌, append_assoc, Bytes, codes, str_eq, str_eq_refl,
}
use ome_kafka_bridge.Common.{text_leb, insert, sort}
use ome_kafka_bridge.Labels.{get}
use ome_kafka_bridge.Lokiwriter.{write_keys, fingerprint}

-- A label whose value goes on like a second label, whose name is another and not before its own, has
-- the fingerprint of the two labels, so entries with either label set are put into one stream: the
-- names and values are joined unescaped.
pub fingerprint-collides :
    (a b v w : Bytes)
    → text_leb a b ≡ true
    → str_eq a b ≡ false
    → fingerprint ((a, v ++ (codes "," ++ (b ++ (codes "=" ++ w)))) ∷ [])
      ≡ fingerprint ((a, v) ∷ (b, w) ∷ [])
unfolding fingerprint sort insert write_keys get
fingerprint-collides a b v w before other =
    rw (before, other, str_eq_refl a, str_eq_refl b) (simp append_assoc)
