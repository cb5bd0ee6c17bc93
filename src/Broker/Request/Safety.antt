-- ===== src/Broker/Request/Safety.antt =====
-- No request makes the handler run out of fuel, and the answer leaves the broker open.
use ome_kafka_bridge.Common.{is}
use ome_kafka_bridge.Common.{
  ℕ, zero, suc, ◌^◌, ◌<◌, refl, arith, Bool, true, false, if◌then◌else◌, ltb, Bool-cases, inl, inr,
  List, [], Bytes, length, Option, some, pos_part,
}
use ome_kafka_bridge.Broker.Outcome.{Outcome, done, panic, stuck, bind}
use ome_kafka_bridge.Broker.Reader.{Reader, Read, int_pred}
use ome_kafka_bridge.Broker.Reader.Steady.{
  Ends, Steady, Any, IsInt, Steady-bind, Steady-pure, Steady-if, Steady-read_int16,
  Steady-read_int32, Steady-read_uvarint, Steady-read_string, Steady-read_compact_string,
  Steady-read_compact_nullable_string, Steady-weaken,
}
use ome_kafka_bridge.Broker.State.{Broker, Message}
use ome_kafka_bridge.Broker.State.Grown.{
  Extends, Extends-refl, Extends-trans, named, create_topics-named, Grown, Grown-refl, Grown-sent,
}
use ome_kafka_bridge.Broker.Records.Safety.{Steady-decode_record_batch}
use ome_kafka_bridge.Broker.Produce.{
  read_count, read_topic, read_transactional_id, skip_tags, produce_partition, produce_partitions,
  produce_topic, produce_topics, read_produce,
}
use ome_kafka_bridge.Broker.Metadata.Request.{repeat, read_compact_topic, read_topics}
use ome_kafka_bridge.Broker.Request.{
  Header, Handled, read_client_id, read_header, dispatch, handle_request,
}
use ome_kafka_bridge.Broker.Metadata.{create_topics}

Ends-Extends :
    {ch ch' : List Message} (r : Reader) (o : Outcome (List Message × Reader))
    → Extends ch ch'
    → Ends (Extends ch') r o
    → Ends (Extends ch) r o
Ends-Extends r (done (v, r')) h (k, ahead_) = (Extends-trans h k, ahead_)
Ends-Extends r panic h k = tt
Ends-Extends r stuck h k = k

Steady-Extends :
    {n : ℕ} {ch ch' : List Message} {p : Read (List Message)}
    → Extends ch ch'
    → Steady n (Extends ch') p
    → Steady n (Extends ch) p
Steady-Extends {p} h k = record { at = λ r valid. Ends-Extends r (p r) h (k.at r valid) }

module _ {n : ℕ} (flexible : Bool) where
  Steady-skip_tags : Steady n Any (skip_tags flexible)
  unfolding skip_tags
  Steady-skip_tags =
      Steady-if flexible (Steady-bind Any _ Steady-read_uvarint (λ _ _. Steady-pure Any tt tt))
        (Steady-pure Any tt tt)

  Steady-read_count : Steady n Any (read_count flexible)
  unfolding read_count
  Steady-read_count =
      Steady-if flexible (Steady-bind Any _ Steady-read_uvarint (λ _ _. Steady-pure Any _ tt))
        (Steady-weaken Steady-read_int32)

  Steady-produce_partition :
      (topic : Bytes) (ch : List Message)
      → Steady n (Extends ch) (produce_partition flexible topic ch)
  unfolding produce_partition
  Steady-produce_partition topic ch = Steady-bind IsInt _ Steady-read_int32 (λ partition _.
      Steady-bind IsInt _ Steady-read_int32 (λ _ _.
        Steady-bind Any _ (Steady-decode_record_batch topic partition) (λ msgs _.
          Steady-bind Any _ Steady-skip_tags
            (λ _ _. Steady-pure (Extends ch) _ (record { messages = msgs; result = refl })))))

  Steady-produce_partitions :
      (topic : Bytes) (k : ℕ) (ch : List Message)
      → Steady n (Extends ch) (produce_partitions flexible topic k ch)
  unfolding produce_partitions
  Steady-produce_partitions topic zero ch = Steady-pure (Extends ch) ch (Extends-refl ch)
  Steady-produce_partitions topic (suc k) ch =
      Steady-bind (Extends ch) _ (Steady-produce_partition topic ch)
        (λ ch' h. Steady-Extends h (Steady-produce_partitions topic k ch'))

  Steady-produce_topic : (ch : List Message) → Steady n (Extends ch) (produce_topic flexible ch)
  unfolding produce_topic
  Steady-produce_topic ch =
      Steady-bind Any _
        (unfold read_topic in Steady-if flexible Steady-read_compact_string Steady-read_string)
        (λ topic _. Steady-bind Any _ Steady-read_count (λ k _.
          Steady-bind (Extends ch) _ (Steady-produce_partitions topic (pos_part k) ch)
            (λ ch' h. Steady-bind Any _ Steady-skip_tags (λ _ _. Steady-pure (Extends ch) _ h))))

  Steady-produce_topics :
      (k : ℕ) (ch : List Message) → Steady n (Extends ch) (produce_topics flexible k ch)
  unfolding produce_topics
  Steady-produce_topics zero ch = Steady-pure (Extends ch) ch (Extends-refl ch)
  Steady-produce_topics (suc k) ch =
      Steady-bind (Extends ch) _ (Steady-produce_topic ch)
        (λ ch' h. Steady-Extends h (Steady-produce_topics k ch'))

  Steady-read_produce : (ch : List Message) → Steady n (Extends ch) (read_produce flexible ch)
  unfolding read_produce
  Steady-read_produce ch =
      Steady-bind Any _
        (unfold read_transactional_id in
          Steady-if flexible Steady-read_compact_nullable_string Steady-read_string)
        (λ _ _. Steady-bind IsInt _ Steady-read_int16 (λ _ _.
          Steady-bind IsInt _ Steady-read_int32 (λ _ _. Steady-bind Any _ Steady-read_count (λ k _.
            Steady-bind (Extends ch) _ (Steady-produce_topics (pos_part k) ch) (λ ch' h.
              Steady-bind Any _ Steady-skip_tags (λ _ _. Steady-pure (Extends ch) _ h))))))

module _ {n : ℕ} where
  Steady-repeat {ℓ} : {A : Type ℓ} (k : ℕ) {p : Read A} → Steady n Any p → Steady n Any (repeat k p)
  unfolding repeat
  Steady-repeat zero h = Steady-pure Any [] tt
  Steady-repeat (suc k) h =
      Steady-bind Any _ h
        (λ x _. Steady-bind Any _ (Steady-repeat k h) (λ xs _. Steady-pure Any _ tt))

  Steady-read_compact_topic : Steady n Any read_compact_topic
  unfolding read_compact_topic
  Steady-read_compact_topic =
      Steady-bind Any _ Steady-read_compact_string
        (λ t _. Steady-bind Any _ Steady-read_uvarint (λ _ _. Steady-pure Any _ tt))

  Steady-read_topics : (flexible : Bool) → Steady n Any (read_topics flexible)
  unfolding read_topics
  Steady-read_topics true = Steady-bind Any _ Steady-read_uvarint (λ k _.
      Steady-bind Any _ (Steady-repeat (pos_part (int_pred k)) Steady-read_compact_topic)
        (λ ts _. Steady-bind Any _ Steady-read_uvarint (λ _ _. Steady-pure Any _ tt)))
  Steady-read_topics false =
      Steady-bind IsInt _ Steady-read_int32 (λ k _. Steady-repeat (pos_part k) Steady-read_string)

  Steady-read_client_id : (flexible : Bool) → Steady n Any (read_client_id flexible)
  unfolding read_client_id
  Steady-read_client_id true =
      Steady-bind Any _ Steady-read_compact_string
        (λ _ _. Steady-bind Any _ Steady-read_uvarint (λ _ _. Steady-pure Any tt tt))
  Steady-read_client_id false = Steady-bind Any _ Steady-read_string (λ _ _. Steady-pure Any tt tt)

  Steady-read_header : Steady n Any read_header
  unfolding read_header
  Steady-read_header = Steady-bind IsInt _ Steady-read_int16 (λ key _.
      Steady-bind IsInt _ Steady-read_int16 (λ version _.
        Steady-bind IsInt _ Steady-read_int32
          (λ corr _. Steady-bind Any _ (Steady-read_client_id _) (λ _ _. Steady-pure Any _ tt))))

-- What the broker is after an answer.
abbrev Handles : Broker → Handled → Type 0
Handles b (response, b') = Grown b b'

Grown-topics :
    (b : Broker) (create : Bool) (ts : List Bytes)
    → Grown b
        (record b { topic_set = if create then create_topics b.topic_set ts else b.topic_set })
Grown-topics b true ts = record {
  cfg = refl;
  closed = refl;
  sent = Extends-refl b.msg_ch;
  created = (named ts, create_topics-named b.topic_set ts);
}
Grown-topics b false ts = Grown-refl b

module _ {n : ℕ} (order : List Bytes → List Bytes) (b : Broker) where
  Steady-dispatch : (h : Header) → Steady n (Handles b) (dispatch order b h)
  unfolding dispatch
  Steady-dispatch h = Steady-if (is 18 h.api_key) (Steady-pure (Handles b) _ (Grown-refl b)) (
      Steady-if (is 3 h.api_key)
        (Steady-bind Any _ (Steady-read_topics _)
          (λ ts _. Steady-pure (Handles b) _ (Grown-topics b b.cfg.auto_create_topics ts)))
        (Steady-if (is 0 h.api_key)
          (Steady-bind (Extends b.msg_ch) _ (Steady-read_produce _ b.msg_ch)
            (λ ch h. Steady-pure (Handles b) _ (Grown-sent b ch h)))
          (Steady-if (is 17 h.api_key) (Steady-pure (Handles b) _ (Grown-refl b)) (
            Steady-if (is 36 h.api_key) (Steady-pure (Handles b) _ (Grown-refl b))
              (Steady-pure (Handles b) _ (Grown-refl b))))))

-- What a request may come to: an answer or an error from a broker that has grown at most, or a
-- panic.
abbrev pub Served : Broker → Outcome (Option Bytes × Broker) → Type 0
Served b (done (response, b')) = Grown b b'
Served b panic = Unit {0}
Served b stuck = ⊥

Served-answer :
    (b : Broker) (r : Reader) (o : Outcome (Handled × Reader))
    → Ends (Handles b) r o
    → Served b (bind o (λ ((response, b'), _). done (some response, b')))
Served-answer b r (done ((response, b'), r')) (h, _) = h
Served-answer b r panic h = tt
Served-answer b r stuck h = h

-- Whatever the bytes of a request are, its handling ends: with an answer, an error or a panic, and
-- never because a loop of the model ran out of fuel. All that it does to the broker is to send
-- messages to the channel and to add topics to the set. The request is shorter than 2 ^ 63.
pub handle_request-Served :
    (order : List Bytes → List Bytes) (b : Broker) (body : Bytes)
    → length body < 2 ^ 63
    → Served b (handle_request order b body)
unfolding handle_request
handle_request-Served order b body short = elim (Bool-cases (ltb (length body) 4)) [
  | inl few ↦ rw few (Grown-refl b)
  | inr more ↦
      let r : Reader = record { buf = body; offset = 0 } in
      rw more (
        Served-answer b r _ (
          (Steady-bind {n = length body} Any (dispatch order b) Steady-read_header
              (λ h _. Steady-dispatch order b h)).at
            r (record { within = omega arith; short = short; left = omega arith })))
]
