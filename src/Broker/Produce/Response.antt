-- ===== src/Broker/Produce/Response.antt =====
-- The answer to a produce request, which names no topic, whatever the request held.
use ome_kafka_bridge.Common.{Bool, if◌then◌else◌, ℤ, pos}
use ome_kafka_bridge.Broker.Writer.{Write, ◌>>◌, skip, write_int32, write_uvarint}

unfoldable pub produce_response : Bool → ℤ → Write
produce_response flexible corr = do
  write_int32 corr
  if flexible then write_uvarint 0 else skip
  write_int32 (pos 0)
  if flexible then (do write_uvarint 1; write_uvarint 0) else write_int32 (pos 0)
