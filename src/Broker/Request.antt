-- ===== src/Broker/Request.antt =====
-- handleRequest of broker.go, with the handlers of the request kinds that it chooses from.
pub mod Conn
pub mod Whole
pub mod Produce
pub mod Crash
pub mod Overflow
pub mod Safety
pub mod Stream
pub mod Ends
pub mod Metadata
use ome_kafka_bridge.Common.{at_least, is}
use ome_kafka_bridge.Common.{
  ℕ, suc, ◌+◌, Bool, true, false, ltb, leb, ◌==◌, if◌then◌else◌, Option, none, some, List, [], ◌∷◌,
  Bytes, length, ℤ, pos, negsuc,
}
use ome_kafka_bridge.Broker.Outcome.{Outcome, done, bind}
use ome_kafka_bridge.Broker.Reader.{
  Reader, Read, ◌>>=◌, ◌>>◌, pure, read_int16, read_int32, read_uvarint, read_string,
  read_compact_string,
}
use ome_kafka_bridge.Broker.State.{Broker}
use ome_kafka_bridge.Broker.ApiVersions.{
  api_versions_response, sasl_handshake_response, sasl_authenticate_response, error_response,
}
use ome_kafka_bridge.Broker.Metadata.{create_topics, metadata_response}
use ome_kafka_bridge.Broker.Metadata.Request.{read_topics}
use ome_kafka_bridge.Broker.Produce.{read_produce}
use ome_kafka_bridge.Broker.Produce.Response.{produce_response}

unfoldable pub is_flexible_version : ℤ → ℤ → Bool
is_flexible_version api_key api_version =
    if is 18 api_key
    then at_least 3 api_version
    else if is 3 api_key
    then at_least 9 api_version
    else if is 0 api_key
    then at_least 9 api_version
    else at_least 6 api_version

pub record Header : Type 0 where
  pub api_key : ℤ
  pub api_version : ℤ
  pub correlation_id : ℤ

unfoldable pub read_client_id : Bool → Read (Unit {0})
read_client_id true = do read_compact_string; read_uvarint; pure tt
read_client_id false = do read_string; pure tt

unfoldable pub read_header : Read Header
unfolding is_flexible_version read_client_id
read_header = do
  api_key ← read_int16
  api_version ← read_int16
  correlation_id ← read_int32
  read_client_id (is_flexible_version api_key api_version)
  pure (record { api_key = api_key; api_version = api_version; correlation_id = correlation_id })

-- What `handleX` returns, and the broker afterwards.
abbrev pub Handled : Type 0
Handled = Bytes × Broker

-- Go ranges over a map in an order of its own: `order` lists the keys of the topic set for this
-- request.
module _ (order : List Bytes → List Bytes) (b : Broker) where
  unfoldable pub handle_metadata : ℤ → ℤ → Read Handled
  handle_metadata corr version = do
    requested ← read_topics (at_least 9 version)
    let set = if b.cfg.auto_create_topics then create_topics b.topic_set requested else b.topic_set
    pure (metadata_response version b.cfg (order set) corr [], record b { topic_set = set })

  unfoldable pub handle_produce : ℤ → ℤ → Read Handled
  handle_produce corr version = do
    ch ← read_produce (at_least 9 version) b.msg_ch
    pure (produce_response (at_least 9 version) corr [], record b { msg_ch = ch })

  unfoldable pub dispatch : Header → Read Handled
  unfolding handle_metadata handle_produce
  dispatch h =
      if is 18 h.api_key
      then pure (api_versions_response h.correlation_id h.api_version [], b)
      else if is 3 h.api_key
      then handle_metadata h.correlation_id h.api_version
      else if is 0 h.api_key
      then handle_produce h.correlation_id h.api_version
      else if is 17 h.api_key
      then pure (sasl_handshake_response h.correlation_id [], b)
      else if is 36 h.api_key
      then pure (sasl_authenticate_response h.correlation_id [], b)
      else pure (error_response h.correlation_id (pos 35) [], b)

  -- A body of fewer than four bytes is an error, `none`.
  unfoldable pub handle_request : Bytes → Outcome (Option Bytes × Broker)
  unfolding read_header dispatch
  handle_request body =
      let r : Reader = record { buf = body; offset = 0 } in
      if ltb (length body) 4
      then done (none, b)
      else bind ((do h ← read_header; dispatch h) r)
          (λ ((response, b'), _). done (some response, b'))
