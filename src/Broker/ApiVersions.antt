-- ===== src/Broker/ApiVersions.antt =====
-- handleAPIVersions, the two SASL handlers and buildErrorResponse of broker.go: the answers that
-- depend on nothing but the request's header.
pub mod Client
use ome_kafka_bridge.Common.{at_least}
use ome_kafka_bridge.Common.{
  ℕ, ◌+◌, Bool, true, false, leb, if◌then◌else◌, List, [], ◌∷◌, Bytes, length, ℤ, pos, negsuc,
}
use ome_kafka_bridge.Broker.Writer.{
  Write, ◌>>◌, write_each, write_int16, write_int32, write_uvarint, int32_of, uint64_of,
}

pub record ApiEntry : Type 0 where
  pub key : ℤ
  pub min : ℤ
  pub max : ℤ

abbrev pub supported : List ApiEntry
supported =
    (record { key = pos 0; min = pos 0; max = pos 8 })
    ∷ (record { key = pos 3; min = pos 0; max = pos 9 })
    ∷ (record { key = pos 18; min = pos 0; max = pos 3 })
    ∷ (record { key = pos 17; min = pos 0; max = pos 1 })
    ∷ (record { key = pos 36; min = pos 0; max = pos 2 })
    ∷ []

unfoldable pub write_entry : ApiEntry → Write
write_entry e = do write_int16 e.key; write_int16 e.min; write_int16 e.max

unfoldable pub write_flexible_entry : ApiEntry → Write
write_flexible_entry e = do write_int16 e.key; write_int16 e.min; write_int16 e.max; write_uvarint 0

unfoldable pub api_versions_response : ℤ → ℤ → Write
unfolding write_entry write_flexible_entry
api_versions_response corr version = do
  write_int32 corr
  write_int16 (pos 0)
  if at_least 3 version
      then (do
        write_uvarint (uint64_of (length supported + 1))
        write_each write_flexible_entry supported
        write_int32 (pos 0)
        write_uvarint 0)
      else (do
        write_int32 (int32_of (length supported))
        write_each write_entry supported
        write_int32 (pos 0))

unfoldable pub sasl_handshake_response : ℤ → Write
sasl_handshake_response corr = do write_int32 corr; write_int16 (pos 33); write_int32 (pos 0)

unfoldable pub sasl_authenticate_response : ℤ → Write
sasl_authenticate_response corr = do
  write_int32 corr
  write_int16 (pos 58)
  write_int16 (negsuc 0)
  write_int32 (negsuc 0)

unfoldable pub error_response : ℤ → ℤ → Write
error_response corr code = do write_int32 corr; write_int16 code
