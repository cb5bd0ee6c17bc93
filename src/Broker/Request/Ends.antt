-- ===== src/Broker/Request/Ends.antt =====
-- A connection ends on every stream of bytes: its loop never runs out of fuel.
use ome_kafka_bridge.Common.{
  ℕ, zero, suc, ◌≤◌, ◌<◌, ◌≡◌, refl, arith, Bool, true, false, ltb, ltb→le, if◌then◌else◌, List, [],
  ◌++◌, Bytes, length, length-drop, length-take, take, drop, Option, none, some, ℤ, pos, negsuc,
  int32,
}
use ome_kafka_bridge.Binary.{from_be32}
use ome_kafka_bridge.Broker.Outcome.{Outcome, done, panic, stuck, bind}
use ome_kafka_bridge.Broker.State.{Broker}
use ome_kafka_bridge.Broker.Request.{handle_request}
use ome_kafka_bridge.Broker.Request.Conn.{
  max_request, invalid_size, size_of, frame, continue_with, handle_conn_loop, handle_conn,
}
use ome_kafka_bridge.Broker.Request.Safety.{Served, handle_request-Served}

-- The outcome is one that Go code can have.
abbrev pub Finished {ℓ} : {A : Type ℓ} → Outcome A → Type 0
Finished (done a) = Unit {0}
Finished panic = Unit {0}
Finished stuck = ⊥

Finished-if {ℓ} :
    {A : Type ℓ} (b : Bool) (x y : Outcome A)
    → Finished x
    → (b ≡ false → Finished y)
    → Finished (if b then x else y)
Finished-if true x y hx hy = hx
Finished-if false x y hx hy = hy refl

Finished-continue :
    (b : Broker) (o : Outcome (Option Bytes × Broker))
    (next : Broker → Bytes → Outcome (Bytes × Broker)) (output : Bytes)
    → Served b o
    → ((b' : Broker) (output' : Bytes) → Finished (next b' output'))
    → Finished (bind o (continue_with next output))
unfolding continue_with
Finished-continue b (done (none, b')) next output h k = tt
Finished-continue b (done (some response, b')) next output h k = k b' (output ++ frame response)
Finished-continue b panic next output h k = tt
Finished-continue b stuck next output h k = h

pub size_of-le : (z : ℤ) → invalid_size z ≡ false → size_of z ≤ max_request
unfolding invalid_size
size_of-le (pos n) h = ground arith
size_of-le (negsuc n) h = cc

module _ (handle : Broker → Bytes → Outcome (Option Bytes × Broker))
    (served : (b : Broker) (body : Bytes)
      → length body ≤ max_request
      → Served b (handle b body)) where
  handle_conn_loop-Finished :
      (fuel : ℕ) (b : Broker) (input output : Bytes)
      → length input < fuel
      → Finished (handle_conn_loop handle fuel b input output)
  unfolding handle_conn_loop
  handle_conn_loop-Finished zero b input output h = absurd (omega arith)
  handle_conn_loop-Finished (suc fuel) b input output h =
      let body = drop 4 input in
      Finished-if b.closed _ _ tt (λ _. Finished-if (ltb (length input) 4) _ _ tt (λ long.
        Finished-if (invalid_size (int32 (from_be32 input))) _ _ tt (λ valid.
          Finished-if (ltb (length body) (size_of (int32 (from_be32 input)))) _ _ tt (λ whole.
            let n = size_of (int32 (from_be32 input)) in
            Finished-continue b (handle b (take n body)) _ output
              (served b (take n body)
                (omega (arith, length-take n body, size_of-le (int32 (from_be32 input)) valid)))
              (λ b' output'. handle_conn_loop-Finished fuel b' (drop n body) output' (
                omega (
                  arith,
                  length-drop n body,
                  length-drop 4 input,
                  ltb→le (length input) 4 long,
                )))))))

-- A connection ends on every stream of bytes: it closes, or a request makes the broker panic. The
-- loop of the model, whose fuel is one more than the bytes of the stream, never runs out of it.
pub handle_conn-Finished :
    (order : List Bytes → List Bytes) (b : Broker) (input : Bytes)
    → Finished (handle_conn (handle_request order) b input)
unfolding handle_conn
handle_conn-Finished order b input =
    handle_conn_loop-Finished (handle_request order)
      (λ b' body h. handle_request-Served order b' body (omega arith)) (suc (length input)) b input
      [] (omega arith)
