-- ===== src/Broker/Reader/Panics.antt =====
-- What it means that a reading action panics on an encoding.
use ome_kafka_bridge.Common.{◌≡◌, ◌++◌, Bytes, append_assoc, length}
use ome_kafka_bridge.Broker.Outcome.{panic}
use ome_kafka_bridge.Broker.Reader.{Reader, Read, ◌>>=◌, advance}
use ome_kafka_bridge.Broker.Reader.View.{IsAt, IsAt-advance}
use ome_kafka_bridge.Broker.Reader.Parses.{Parses}

-- From any reader that stands before the encoding, `p` panics.
pub record Panics {ℓ} {A : Type ℓ} (p : Read A) (enc : Bytes) : Type ℓ where
  pub runs : (r : Reader) (s : Bytes) → IsAt r (enc ++ s) → p r ≡ panic

module _ {ℓ κ} {A : Type ℓ} {B : Type κ} {p : Read A} (f : A → Read B) {e : Bytes} where
  -- What comes after a panic does not run.
  pub Panics-first : Panics p e → Panics (p >>= f) e
  unfolding ◌>>=◌
  Panics-first h = record { runs = λ r s at. rw (h.runs r s at) }

  pub Panics-after :
      {e' : Bytes} {a : A} → Parses p e a → Panics (f a) e' → Panics (p >>= f) (e ++ e')
  unfolding ◌>>=◌
  Panics-after {e'} hp hf = record {
    runs = λ r s at.
        let at' = rw append_assoc at at in
        rw (hp.runs r (e' ++ s) at')
          (hf.runs (advance (length e) r) s (IsAt-advance e (e' ++ s) at'));
  }

pub Panics-longer {ℓ} :
    {A : Type ℓ} {p : Read A} {e : Bytes} (more : Bytes) → Panics p e → Panics p (e ++ more)
Panics-longer more h = record { runs = λ r s at. h.runs r (more ++ s) (rw append_assoc at at) }
