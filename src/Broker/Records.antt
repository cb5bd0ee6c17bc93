-- ===== src/Broker/Records.antt =====
-- The record batch decoder of broker.go. Its error is always nil and is left out.
pub mod Safety
use ome_kafka_bridge.Common.{is}
use ome_kafka_bridge.Common.{
  ℕ, zero, suc, ◌+◌, ◌-◌, Bool, true, false, ltb, leb, ◌||◌, ◌==◌, if◌then◌else◌, List, [], ◌∷◌,
  ◌++◌, Bytes, ℤ, pos, negsuc, pos_part,
}
use ome_kafka_bridge.Broker.Outcome.{Outcome, done, panic, stuck}
use ome_kafka_bridge.Broker.Reader.{
  Reader, Read, ◌>>=◌, ◌>>◌, pure, remaining, read_int8, read_int16, read_int32, read_int64,
  read_varint, read_var_bytes, read_bytes,
}
use ome_kafka_bridge.Broker.State.{Message, Time, unix_milli, now}

module _ (topic : Bytes) (partition : ℤ) where
  abbrev pub message : Bytes → Bytes → Time → Message
  message key value timestamp = record {
    topic = topic;
    partition = partition;
    key = key;
    value = value;
    timestamp = timestamp;
  }

-- The headers of a record, read and dropped.
unfoldable pub skip_headers : ℕ → Read (Unit {0})
skip_headers zero = pure tt
skip_headers (suc n) = do read_var_bytes; read_var_bytes; skip_headers n

unfoldable pub decode_record : Bytes → ℤ → Time → Read Message
unfolding skip_headers
decode_record topic partition timestamp = do
  read_varint
  read_int8
  read_varint
  read_varint
  key ← read_var_bytes
  value ← read_var_bytes
  n_headers ← read_varint
  skip_headers (pos_part n_headers)
  pure (message topic partition key value timestamp)

-- `for i := 0; i < nRecords && r.remaining() > 0; i++`, with the rounds left and the messages so far
unfoldable pub decode_records : Bytes → ℤ → Time → ℕ → List Message → Read (List Message)
decode_records topic partition timestamp zero msgs = pure msgs
decode_records topic partition timestamp (suc n) msgs =
    let next = (do
      m ← decode_record topic partition timestamp
      decode_records topic partition timestamp n (msgs ++ m ∷ [])) in
    λ r. if remaining r == 0 then pure msgs r else next r

-- make([]Message, 0, n) panics if n is negative.
unfoldable pub make_messages : ℤ → Read (List Message)
make_messages (pos n) r = done ([], r)
make_messages (negsuc n) r = panic

unfoldable pub decode_record_batch_v2 : Bytes → ℤ → Read (List Message)
unfolding decode_records make_messages
decode_record_batch_v2 topic partition = do
  read_int16
  read_int32
  base_timestamp ← read_int64
  read_int64
  read_int64
  read_int16
  read_int32
  n_records ← read_int32
  msgs ← make_messages n_records
  decode_records topic partition (unix_milli base_timestamp) (pos_part n_records) msgs

-- `size <= 0 || int(size) > r.remaining()`
unfoldable pub bad_size : ℤ → Reader → Bool
bad_size (negsuc _) r = true
bad_size (pos n) r = n == 0 || ltb (remaining r) n

-- What follows the size of a message.
unfoldable pub decode_legacy_message : Bytes → ℤ → Read Message
decode_legacy_message topic partition = do
  read_int32
  read_int8
  read_int8
  key ← read_bytes
  value ← read_bytes
  pure (message topic partition key value now)

-- `for r.remaining() >= 12`, on fuel
unfoldable pub decode_legacy_loop : ℕ → Bytes → ℤ → List Message → Read (List Message)
unfolding bad_size decode_legacy_message
decode_legacy_loop zero topic partition msgs r =
    if ltb (remaining r) 12 then done (msgs, r) else stuck
decode_legacy_loop (suc fuel) topic partition msgs r =
    let next = (do
      m ← decode_legacy_message topic partition
      decode_legacy_loop fuel topic partition (msgs ++ m ∷ [])) in
    let entry = (do
      read_int64
      size ← read_int32
      λ r'. if bad_size size r' then pure msgs r' else next r') in
    if ltb (remaining r) 12 then done (msgs, r) else entry r

-- A round that goes on has taken twelve bytes or more, so the bytes that remain are fuel enough.
unfoldable pub decode_legacy_message_set : Bytes → ℤ → Read (List Message)
unfolding decode_legacy_loop
decode_legacy_message_set topic partition r = decode_legacy_loop (remaining r) topic partition [] r

-- The start of a batch, up to the magic byte.
unfoldable pub read_magic : Read ℤ
read_magic = do read_int64; read_int32; read_int32; read_int8

-- The position goes back to the start of the batch unless its magic byte is 2.
unfoldable pub decode_record_batch : Bytes → ℤ → Read (List Message)
unfolding read_magic decode_record_batch_v2 decode_legacy_message_set
decode_record_batch topic partition r =
    let batch : Read (List Message) = (do
      magic ← read_magic
      λ r'.
          if is 2 magic
          then decode_record_batch_v2 topic partition r'
          else decode_legacy_message_set topic partition r) in
    if ltb (remaining r) 17 then done ([], r) else batch r
