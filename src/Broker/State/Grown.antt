-- ===== src/Broker/State/Grown.antt =====
-- What requests do to the broker's state: messages are sent and topics are added.
use ome_kafka_bridge.Common.{◌≡◌, ◌∙◌, sym, refl, ap, List, [], ◌∷◌, ◌++◌, Bytes}
use ome_kafka_bridge.Broker.State.{Broker, Message, send_all, add_topic, add_topics}
use ome_kafka_bridge.Broker.State.Channel.{send_all-append}
use ome_kafka_bridge.Broker.Metadata.{create_topics}

-- The second channel is the first after messages were sent.
pub record Extends (ch ch' : List Message) : Type 0 where
  pub messages : List Message
  pub result : ch' ≡ send_all ch messages

pub Extends-refl : (ch : List Message) → Extends ch ch
unfolding send_all
Extends-refl ch = record { messages = []; result = refl }

pub Extends-trans :
    {ch ch' ch'' : List Message} → Extends ch ch' → Extends ch' ch'' → Extends ch ch''
Extends-trans {ch} h k = record {
  messages = h.messages ++ k.messages;
  result =
      k.result
      ∙ ap (λ c. send_all c k.messages) h.result
      ∙ sym (send_all-append ch h.messages k.messages);
}

pub record Grown (b b' : Broker) : Type 0 where
  pub cfg : b'.cfg ≡ b.cfg
  pub closed : b'.closed ≡ b.closed
  pub sent : Extends b.msg_ch b'.msg_ch
  pub created : (ts : List Bytes) × (b'.topic_set ≡ add_topics b.topic_set ts)

pub Grown-refl : (b : Broker) → Grown b b
unfolding add_topics
Grown-refl b = record {
  cfg = refl;
  closed = refl;
  sent = Extends-refl b.msg_ch;
  created = ([], refl);
}

pub Grown-sent :
    (b : Broker) (ch : List Message) → Extends b.msg_ch ch → Grown b (record b { msg_ch = ch })
unfolding add_topics
Grown-sent b ch h = record { cfg = refl; closed = refl; sent = h; created = ([], refl) }

-- The topics that are not the empty text.
abbrev pub named : List Bytes → List Bytes
named [] = []
named ([] ∷ ts) = named ts
named ((c ∷ t) ∷ ts) = (c ∷ t) ∷ named ts

pub create_topics-named : (set ts : List Bytes) → create_topics set ts ≡ add_topics set (named ts)
unfolding create_topics add_topics
create_topics-named set [] = refl
create_topics-named set ([] ∷ ts) = create_topics-named set ts
create_topics-named set ((c ∷ t) ∷ ts) = create_topics-named (add_topic set (c ∷ t)) ts
