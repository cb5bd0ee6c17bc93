-- ===== src/Broker/Records/Safety.antt =====
-- The record decoders stay in the buffer, and the legacy loop never runs out of its fuel.
use ome_kafka_bridge.Common.{is}
use ome_kafka_bridge.Common.{
  ℕ, zero, suc, ◌≤◌, ◌≡◌, refl, arith, Bool, if◌then◌else◌, ltb, ltb→le, ◌==◌, Bool-cases, inl, inr,
  List, [], ◌∷◌, ◌++◌, Bytes, length, ℤ, pos, negsuc, pos_part, int32, int64,
}
use ome_kafka_bridge.Binary.{from_be32, from_be64}
use ome_kafka_bridge.Broker.Outcome.{Outcome, done, panic, stuck, bind}
use ome_kafka_bridge.Broker.Reader.{
  Reader, Read, ◌>>=◌, ◌>>◌, advance, ahead, remaining, read_int32, read_int64,
}
use ome_kafka_bridge.Broker.Reader.Steady.{
  Ahead-IsValid, IsValid, Ends, Ends-trans, Steady, Any, IsInt, Steady-bind, Steady-pure,
  Steady-read_int8, Steady-read_int16, Steady-read_int32, Steady-read_int64, Steady-read_varint,
  Steady-read_var_bytes, Steady-read_bytes,
}
use ome_kafka_bridge.Broker.State.{Message, Time, unix_milli}
use ome_kafka_bridge.Broker.Records.{
  skip_headers, decode_legacy_message, decode_record, decode_records, make_messages,
  decode_record_batch_v2, bad_size, decode_legacy_loop, decode_legacy_message_set,
  decode_record_batch, read_magic,
}

module _ {n : ℕ} where
  Steady-skip_headers : (k : ℕ) → Steady n Any (skip_headers k)
  unfolding skip_headers
  Steady-skip_headers zero = Steady-pure Any tt tt
  Steady-skip_headers (suc k) =
      Steady-bind Any _ Steady-read_var_bytes
        (λ _ _. Steady-bind Any _ Steady-read_var_bytes (λ _ _. Steady-skip_headers k))

  Steady-decode_record :
      (topic : Bytes) (partition : ℤ) (t : Time) → Steady n Any (decode_record topic partition t)
  unfolding decode_record
  Steady-decode_record topic partition t = Steady-bind IsInt _ Steady-read_varint (λ _ _.
      Steady-bind Any _ Steady-read_int8 (λ _ _. Steady-bind IsInt _ Steady-read_varint (λ _ _.
        Steady-bind IsInt _ Steady-read_varint (λ _ _.
          Steady-bind Any _ Steady-read_var_bytes (λ _ _.
            Steady-bind Any _ Steady-read_var_bytes (λ _ _.
              Steady-bind IsInt _ Steady-read_varint (λ z _.
                Steady-bind Any _ (Steady-skip_headers (pos_part z))
                  (λ _ _. Steady-pure Any _ tt))))))))

  -- A test of the reader that leaves it alone.
  Steady-test {ℓ} :
      {A : Type ℓ} (b : Reader → Bool) {p q : Read A}
      → Steady n Any p
      → Steady n Any q
      → Steady n Any (λ r. if b r then p r else q r)
  Steady-test b {p} {q} hp hq = record {
    at = λ r valid. elim (Bool-cases (b r)) [
      | inl t ↦ rw t (hp.at r valid)
      | inr f ↦ rw f (hq.at r valid)
    ];
  }

  Steady-decode_records :
      (topic : Bytes) (partition : ℤ) (t : Time) (k : ℕ) (msgs : List Message)
      → Steady n Any (decode_records topic partition t k msgs)
  unfolding decode_records
  Steady-decode_records topic partition t zero msgs = Steady-pure Any msgs tt
  Steady-decode_records topic partition t (suc k) msgs =
      Steady-test (λ r. remaining r == 0) (Steady-pure Any msgs tt)
        (Steady-bind Any _ (Steady-decode_record topic partition t)
          (λ m _. Steady-decode_records topic partition t k (msgs ++ m ∷ [])))

  Steady-make_messages : (z : ℤ) → Steady n Any (make_messages z)
  unfolding make_messages
  Steady-make_messages (pos k) = Steady-pure Any [] tt
  Steady-make_messages (negsuc k) = record { at = λ r valid. tt }

  Steady-decode_record_batch_v2 :
      (topic : Bytes) (partition : ℤ) → Steady n Any (decode_record_batch_v2 topic partition)
  unfolding decode_record_batch_v2
  Steady-decode_record_batch_v2 topic partition = Steady-bind IsInt _ Steady-read_int16 (λ _ _.
      Steady-bind IsInt _ Steady-read_int32 (λ _ _. Steady-bind IsInt _ Steady-read_int64 (λ t _.
        Steady-bind IsInt _ Steady-read_int64 (λ _ _. Steady-bind IsInt _ Steady-read_int64 (λ _ _.
          Steady-bind IsInt _ Steady-read_int16 (λ _ _.
            Steady-bind IsInt _ Steady-read_int32 (λ _ _.
              Steady-bind IsInt _ Steady-read_int32 (λ k _.
                Steady-bind Any _ (Steady-make_messages k) (λ msgs _.
                  Steady-decode_records topic partition (unix_milli t) (pos_part k) msgs)))))))))

Steady-decode_legacy_message :
    {n : ℕ} (topic : Bytes) (partition : ℤ) → Steady n Any (decode_legacy_message topic partition)
unfolding decode_legacy_message
Steady-decode_legacy_message topic partition = Steady-bind IsInt _ Steady-read_int32 (λ _ _.
    Steady-bind Any _ Steady-read_int8 (λ _ _. Steady-bind Any _ Steady-read_int8 (λ _ _.
      Steady-bind Any _ Steady-read_bytes
        (λ _ _. Steady-bind Any _ Steady-read_bytes (λ _ _. Steady-pure Any _ tt)))))

read_int64_step :
    (r : Reader) → 8 ≤ remaining r → read_int64 r ≡ done (int64 (from_be64 (ahead r)), advance 8 r)
unfolding read_int64
read_int64_step r h = ground arith

read_int32_step :
    (r : Reader) → 4 ≤ remaining r → read_int32 r ≡ done (int32 (from_be32 (ahead r)), advance 4 r)
unfolding read_int32
read_int32_step r h = ground arith

abbrev past_size : Reader → Reader
past_size r = advance 4 (advance 8 r)

-- The offset and the size of a message are twelve bytes.
Ends-past_size {ℓ} :
    {A : Type ℓ} (f : ℤ → Read A) (r : Reader)
    → 12 ≤ remaining r
    → r.offset ≤ length r.buf
    → ((z : ℤ) → Ends Any (past_size r) (f z (past_size r)))
    → Ends Any r (◌>>◌ read_int64 (read_int32 >>= f) r)
unfolding ◌>>=◌
Ends-past_size f r long within h =
    rw (read_int64_step r (omega arith), read_int32_step (advance 8 r) (omega arith))
      (Ends-trans Any r (past_size r) _
        (record { buf = refl; onward = omega arith; within = omega arith }) (h _))

-- A round that goes on leaves less fuel and at least twelve bytes less.
Steady-decode_legacy_loop :
    (fuel : ℕ) (topic : Bytes) (partition : ℤ) (msgs : List Message)
    → Steady fuel Any (decode_legacy_loop fuel topic partition msgs)
unfolding decode_legacy_loop
Steady-decode_legacy_loop zero topic partition msgs = record { at = λ r valid. ground arith }
Steady-decode_legacy_loop (suc fuel) topic partition msgs = record {
  at = λ r valid. elim (Bool-cases (ltb (remaining r) 12)) [
    | inl few ↦ rw few ((Steady-pure {n = suc fuel} Any msgs tt).at r valid)
    | inr more ↦
        let long : 12 ≤ remaining r = ltb→le (remaining r) 12 more in
        rw more (
          Ends-past_size _ r long valid.within (λ z.
            (Steady-test {n = fuel} (bad_size z) (Steady-pure Any msgs tt) (
                Steady-bind Any _ (Steady-decode_legacy_message topic partition)
                  (λ m _. Steady-decode_legacy_loop fuel topic partition (msgs ++ m ∷ [])))).at
              (past_size r)
              (record {
                within = omega (arith, valid.within);
                short = valid.short;
                left = omega (arith, valid.left);
              })))
  ];
}

Steady-decode_legacy_message_set :
    {n : ℕ} (topic : Bytes) (partition : ℤ)
    → Steady n Any (decode_legacy_message_set topic partition)
unfolding decode_legacy_message_set
Steady-decode_legacy_message_set topic partition = record {
  at = λ r valid.
      (Steady-decode_legacy_loop (remaining r) topic partition []).at r
        (record { within = valid.within; short = valid.short; left = omega arith });
}

Steady-read_magic : {n : ℕ} → Steady n Any read_magic
unfolding read_magic
Steady-read_magic = Steady-bind IsInt _ Steady-read_int64 (λ _ _.
    Steady-bind IsInt _ Steady-read_int32
      (λ _ _. Steady-bind IsInt _ Steady-read_int32 (λ _ _. Steady-read_int8)))

-- Going back to `r` is no harm: what is decoded from there lies ahead of `r`.
Ends-by_magic :
    (n : ℕ) (topic : Bytes) (partition : ℤ) (r : Reader)
    → IsValid n r
    → (o : Outcome (ℤ × Reader)) → Ends Any r o
    → Ends Any r (
        bind o (λ (magic, r').
          if is 2 magic
          then decode_record_batch_v2 topic partition r'
          else decode_legacy_message_set topic partition r))
Ends-by_magic n topic partition r valid (done (magic, r')) (_, h) = elim (Bool-cases (is 2 magic)) [
  | inl t ↦ rw t (
      Ends-trans Any r r' _ h
        ((Steady-decode_record_batch_v2 {n = n} topic partition).at r' (Ahead-IsValid n valid h)))
  | inr f ↦ rw f ((Steady-decode_legacy_message_set {n = n} topic partition).at r valid)
]
Ends-by_magic n topic partition r valid panic h = tt
Ends-by_magic n topic partition r valid stuck h = h

pub Steady-decode_record_batch :
    {n : ℕ} (topic : Bytes) (partition : ℤ) → Steady n Any (decode_record_batch topic partition)
Steady-decode_record_batch {n} topic partition = record {
  at = λ r valid. elim (Bool-cases (ltb (remaining r) 17)) [
    | inl few ↦
        unfold decode_record_batch in
        rw few ((Steady-pure {A = List Message} {n = n} Any [] tt).at r valid)
    | inr more ↦
        unfold decode_record_batch ◌>>=◌ in
        rw more
          (Ends-by_magic n topic partition r valid (read_magic r) (Steady-read_magic.at r valid))
  ];
}
