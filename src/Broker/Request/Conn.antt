-- ===== src/Broker/Request/Conn.antt =====
-- handleConn of broker.go over the bytes that a client sends: the bytes that go back to it, and the
-- broker afterwards. Deadlines and failing writes are not modelled.
use ome_kafka_bridge.Common.{
  ℕ, zero, suc, ◌%◌, ◌^◌, Bool, true, ltb, ◌==◌, ◌||◌, if◌then◌else◌, Option, none, some, [], ◌++◌,
  Bytes, length, take, drop, ℤ, pos, negsuc, int32,
}
use ome_kafka_bridge.Binary.{be32, from_be32}
use ome_kafka_bridge.Broker.Outcome.{Outcome, done, stuck, bind}
use ome_kafka_bridge.Broker.State.{Broker}

-- 32*1024*1024
abbrev pub max_request : ℕ
max_request = 33554432

-- `size <= 0 || size > 32*1024*1024`
unfoldable pub invalid_size : ℤ → Bool
invalid_size (negsuc _) = true
invalid_size (pos n) = n == 0 || ltb max_request n

-- The bytes of a size that has passed the test.
abbrev pub size_of : ℤ → ℕ
size_of (pos n) = n
size_of (negsuc _) = 0

-- `uint32(len(respBytes))` and the response
unfoldable pub frame : Bytes → Bytes
frame response = be32 (length response % 2 ^ 32) ++ response

-- After a request: an error ends the loop, an answer is written and the loop goes on.
unfoldable pub continue_with :
    (Broker → Bytes → Outcome (Bytes × Broker))
    → Bytes
    → Option Bytes × Broker
    → Outcome (Bytes × Broker)
continue_with next output (none, b) = done (output, b)
continue_with next output (some response, b) = next b (output ++ frame response)

module _ (handle : Broker → Bytes → Outcome (Option Bytes × Broker)) where
  -- `for` on fuel. A round reads four bytes or more, or ends the loop.
  unfoldable pub handle_conn_loop : ℕ → Broker → Bytes → Bytes → Outcome (Bytes × Broker)
  handle_conn_loop zero b input output = stuck
  handle_conn_loop (suc fuel) b input output =
      let size = int32 (from_be32 input) in
      let n = size_of size in
      let body = drop 4 input in
      let request =
        bind (handle b (take n body))
          (continue_with (λ b' output'. handle_conn_loop fuel b' (drop n body) output') output) in
      if b.closed
      then done (output, b)
      else if ltb (length input) 4
      then done (output, b)
      else if invalid_size size
      then done (output, b)
      else if ltb (length body) n
      then done (output, b)
      else request

  unfoldable pub handle_conn : Broker → Bytes → Outcome (Bytes × Broker)
  unfolding handle_conn_loop continue_with frame invalid_size
  handle_conn b input = handle_conn_loop (suc (length input)) b input []
