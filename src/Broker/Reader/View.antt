-- ===== src/Broker/Reader/View.antt =====
-- A reader whose position lies in its buffer, with the bytes that are still to be read.
use ome_kafka_bridge.Common.{
  ◌+◌, ◌^◌, ◌≤◌, ◌<◌, ◌≡◌, ◌∙◌, ap, arith, ◌++◌, Bytes, length, length-append,
}
use ome_kafka_bridge.Common.{length-drop, drop-add, drop-append, drop}
use ome_kafka_bridge.Broker.Reader.{Reader, advance, ahead}

-- `s` stands from the position of `r` to the end of its buffer. A Go slice is shorter than 2 ^ 63.
pub record IsAt (r : Reader) (s : Bytes) : Type 0 where
  pub rest : ahead r ≡ s
  pub within : r.offset ≤ length r.buf
  pub short : length r.buf < 2 ^ 63

module _ {r : Reader} {s : Bytes} (h : IsAt r s) where
  pub IsAt-length : r.offset + length s ≡ length r.buf
  IsAt-length = omega (arith, ap length h.rest, length-drop r.offset r.buf, h.within)

pub IsAt-advance : {r : Reader} (a s : Bytes) → IsAt r (a ++ s) → IsAt (advance (length a) r) s
IsAt-advance {r} a s h = record {
  rest = drop-add r.offset (length a) r.buf ∙ ap (λ t. drop (length a) t) h.rest ∙ drop-append a s;
  within = omega (arith, IsAt-length h, length-append a s);
  short = h.short;
}
