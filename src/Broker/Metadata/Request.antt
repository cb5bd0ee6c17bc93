-- ===== src/Broker/Metadata/Request.antt =====
-- The topics that a metadata request asks for.
use ome_kafka_bridge.Common.{ℕ, zero, suc, Bool, true, false, List, [], ◌∷◌, Bytes, pos_part}
use ome_kafka_bridge.Broker.Reader.{
  Read, ◌>>=◌, ◌>>◌, pure, read_int32, read_uvarint, read_string, read_compact_string, int_pred,
}

-- `n` rounds of a loop that collects what it reads
unfoldable pub repeat {ℓ} : {A : Type ℓ} → ℕ → Read A → Read (List A)
repeat zero p = pure []
repeat (suc n) p = do x ← p; xs ← repeat n p; pure (x ∷ xs)

unfoldable pub read_compact_topic : Read Bytes
read_compact_topic = do t ← read_compact_string; read_uvarint; pure t

-- The argument says whether the version is flexible.
unfoldable pub read_topics : Bool → Read (List Bytes)
unfolding repeat read_compact_topic
read_topics true = do
  n ← read_uvarint
  topics ← repeat (pos_part (int_pred n)) read_compact_topic
  read_uvarint
  pure topics
read_topics false = do n ← read_int32; repeat (pos_part n) read_string
