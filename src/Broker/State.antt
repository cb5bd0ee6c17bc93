-- ===== src/Broker/State.antt =====
-- The broker's state and the messages that it hands on. The logger and the locks are left out, and
-- the listener is a part of the process.
pub mod Channel
pub mod Grown
use ome_kafka_bridge.Common.{
  ℕ, ◌+◌, ◌≤◌, ◌<◌, ◌≡◌, Bool, true, false, ltb, if◌then◌else◌, List, [], ◌∷◌, ◌++◌, Bytes, length,
  ℤ, contains,
}
use ome_kafka_bridge.Config.{KafkaConfig}
use ome_kafka_bridge.Broker.Outcome.{Outcome, done, bind, close_channel}

-- time.UnixMilli(ms), or time.Now() when the record was decoded.
pub data Time : Type 0 where
  unix_milli : ℤ → Time
  now : Time

pub record Message : Type 0 where
  pub topic : Bytes
  pub partition : ℤ
  pub key : Bytes
  pub value : Bytes
  pub timestamp : Time

-- `topic_set` lists the keys of the map, which are all mapped to true. `msg_ch` holds what the
-- channel buffers, oldest first, and `closed` says whether `done` is closed.
pub record Broker : Type 0 where
  pub cfg : KafkaConfig
  pub topic_set : List Bytes
  pub msg_ch : List Message
  pub closed : Bool

-- topicSet[t] = true
unfoldable pub add_topic : List Bytes → Bytes → List Bytes
add_topic set t = if contains set t then set else set ++ t ∷ []

unfoldable pub add_topics : List Bytes → List Bytes → List Bytes
unfolding add_topic
add_topics set [] = set
add_topics set (t ∷ ts) = add_topics (add_topic set t) ts

unfoldable pub new : KafkaConfig → Broker
unfolding add_topics
new c = record { cfg = c; topic_set = add_topics [] c.topics; msg_ch = []; closed = false }

abbrev pub capacity : ℕ
capacity = 4096

-- `select { case b.msgCh <- m: default: … }`: a full channel drops the record.
unfoldable pub send : List Message → Message → List Message
send ch m = if ltb (length ch) capacity then ch ++ m ∷ [] else ch

unfoldable pub send_all : List Message → List Message → List Message
unfolding send
send_all ch [] = ch
send_all ch (m ∷ ms) = send_all (send ch m) ms

-- The listener is closed by the process that it belongs to.
unfoldable pub close : Broker → Outcome Broker
unfolding close_channel
close b = bind (close_channel b.closed) (λ closed. done (record b { closed = closed }))
