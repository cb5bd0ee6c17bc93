-- ===== src/Broker/Listen.antt =====
-- Start, Messages and acceptLoop of broker.go. net.Listen is a parameter, and what Accept gives.
use ome_kafka_bridge.Common.{Bool, true, false, List, [], ◌∷◌, Bytes}
use ome_kafka_bridge.Broker.State.{Broker, Message}

-- Whether there is no error. The loop that accepts is started then.
abbrev pub start : (Bytes → Bool) → Broker → Bool
start listen b = listen b.cfg.listen_addr

abbrev pub messages : Broker → List Message
messages b = b.msg_ch

-- What Accept gives: a connection, or an error, with whether `done` is closed by then.
pub data Accepted (Conn : Type 0) : Type 0 where
  accepted : Conn → Accepted Conn
  failed : Bool → Accepted Conn

-- The connections that are handled. An error is passed over unless the broker is closed.
unfoldable pub accept_loop : {Conn : Type 0} → List (Accepted Conn) → List Conn
accept_loop [] = []
accept_loop (accepted conn ∷ rest) = conn ∷ accept_loop rest
accept_loop (failed false ∷ rest) = accept_loop rest
accept_loop (failed true ∷ rest) = []
