-- ===== src/Main/Process/Delivery.antt =====
-- From the bytes of a produce request to what is sent.
use ome_kafka_bridge.Common.{at_least}
use ome_kafka_bridge.Common.{
  ℕ, ◌+◌, ◌-◌, ◌^◌, ◌<◌, ◌≤◌, ◌≡◌, refl, ap, arith, false, [], ◌++◌, Bytes, length, ℤ, InRange,
  Option, some, take, take-eq,
}
use ome_kafka_bridge.Broker.State.{capacity}
use ome_kafka_bridge.Broker.Request.Conn.{max_request}
use ome_kafka_bridge.Broker.Request.Whole.{encode_header}
use ome_kafka_bridge.Broker.Request.Produce.{produce_header, handle_request-produce}
use ome_kafka_bridge.Broker.Produce.Response.{produce_response}
use ome_kafka_bridge.Broker.Produce.Encoding.{
  Request, RequestFits, NullableFits, encode_request, encode_batch, request_messages,
}
use ome_kafka_bridge.Main.Process.{World, Process, is_alive, served, serving}
use ome_kafka_bridge.Main.Process.Invariant.{IsSound}
use ome_kafka_bridge.Main.Process.Run.{run}
use ome_kafka_bridge.Main.Process.Shutdown.{Reaches, view, start_here}
use ome_kafka_bridge.Main.Process.Consume.{reach_next}
use ome_kafka_bridge.Main.Process.Drain.{rest_of, serving-loops, drain}

module _ (w : World) (m n : ℕ) (positive_m : 0 < m) (positive_n : 0 < n) (s : Process w.fs)
    (version corr : ℤ) (client : Option Bytes) (q : Request) where
  abbrev pub produce_body : Bytes
  produce_body = encode_header (produce_header version corr) client ++ encode_request encode_batch q

  -- A produce request to a process that serves and whose pipeline is between two messages, of a
  -- version that is not flexible, with a transactional id, whose partitions each hold one batch in the
  -- layout that the decoder takes, and for whose records there is room in the channel: the process can
  -- go on to a state where it still serves and the channel is empty, after everything was sent that its messages, the records of the request after them, and
  -- a last flush of each forwarder make it send. The process satisfies the invariant, with positive
  -- batch sizes, and the request has 32 MB at most.
  pub produce-delivers :
      IsSound w m n s
      → s.stage ≡ serving
      → s.consumer_todo ≡ []
      → InRange (2 ^ 15) version
      → InRange (2 ^ 31) corr
      → at_least 9 version ≡ false
      → NullableFits client
      → RequestFits q
      → length produce_body ≤ max_request
      → length s.broker.msg_ch + length (request_messages q) ≤ capacity
      → Reaches w m n s
          (run w (rest_of (s.broker.msg_ch ++ request_messages q)) s.pipeline).1
          (record (view w s) {
            stage = serving;
            channel = [];
            todo = [];
            pipeline = (run w (rest_of (s.broker.msg_ch ++ request_messages q)) s.pipeline).0;
          })
  unfolding is_alive
  produce-delivers sound at_ todo hv hc plain hn hq short room =
      let msgs = request_messages q in
      let (consuming, metrics, logs) = serving-loops w m n positive_m positive_n s sound at_ in
      let taken : take (capacity - length s.broker.msg_ch) msgs ≡ msgs =
        take-eq (capacity - length s.broker.msg_ch) msgs (omega arith) in
      let handled =
        handle_request-produce (λ ts. ts) s.broker version corr client q hv hc plain hn hq
          (omega arith) (omega arith) in
      drain w m n positive_m positive_n s
        (record (view w s) { stage = serving; channel = s.broker.msg_ch ++ msgs }) refl consuming
        metrics logs todo
        (reach_next w m n positive_m positive_n s (start_here w m n s sound) _ (ap is_alive at_)
          (served (λ ts. ts) produce_body (some (produce_response false corr [])) _ short handled)
          (λ i. record (view w s) { stage = at_ i; channel = s.broker.msg_ch ++ taken i }))
