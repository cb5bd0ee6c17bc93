-- ===== src/Broker/State/Channel.antt =====
-- The message channel: what is sent is kept in order up to the capacity.
use ome_kafka_bridge.Common.{
  suc, ◌-◌, ◌≤◌, ◌≡◌, ◌∙◌, refl, arith, ltb, Bool-cases, inl, inr, ltb→lt, ltb→le, List, [], ◌∷◌,
  ◌++◌, length, length-append, take, take-nil, append_assoc, append-nil,
}
use ome_kafka_bridge.Broker.State.{Message, send, send_all, capacity}

pub send_all-append :
    (ch ms ns : List Message) → send_all ch (ms ++ ns) ≡ send_all (send_all ch ms) ns
unfolding send_all
send_all-append ch [] ns = refl
send_all-append ch (m ∷ ms) ns = send_all-append (send ch m) ms ns

-- A channel of n messages takes the first `capacity - n` that are sent and drops the others.
pub send_all-eq-take :
    (ch ms : List Message)
    → length ch ≤ capacity
    → send_all ch ms ≡ ch ++ take (capacity - length ch) ms
unfolding send_all send
send_all-eq-take ch [] h = rw (take-nil, append-nil)
send_all-eq-take ch (m ∷ ms) h = elim (Bool-cases (ltb (length ch) capacity)) [
  | inl room ↦
      let left : capacity - length ch ≡ suc (capacity - length (ch ++ m ∷ [])) =
        omega (arith, ltb→lt (length ch) capacity room, length-append ch (m ∷ [])) in
      rw (room, left)
        (send_all-eq-take (ch ++ m ∷ []) ms
            (omega (arith, ltb→lt (length ch) capacity room, length-append ch (m ∷ [])))
          ∙ append_assoc ch (m ∷ []) _)
  | inr full ↦
      let left : capacity - length ch ≡ 0 = omega (arith, ltb→le (length ch) capacity full) in
      rw (full, left) (rw left at (send_all-eq-take ch ms h))
]

pub length-send_all :
    (ch ms : List Message) → length ch ≤ capacity → length (send_all ch ms) ≤ capacity
unfolding send_all send
length-send_all ch [] h = h
length-send_all ch (m ∷ ms) h =
    ground
      (arith, length-append ch (m ∷ []), length-send_all ch ms, length-send_all (ch ++ m ∷ []) ms)
