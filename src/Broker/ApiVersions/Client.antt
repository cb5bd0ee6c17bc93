-- ===== src/Broker/ApiVersions/Client.antt =====
-- What a client reads from the answer to an ApiVersions request, as the Kafka protocol describes it
-- for versions 0 to 3: version 0 has no throttle time, and version 3 is flexible.
use ome_kafka_bridge.Common.{at_least, ◌<◌, ◌≡◌}
use ome_kafka_bridge.Common.{
  ◌-◌, ◌^◌, arith, Bool, true, false, List, [], ◌∷◌, ◌++◌, Bytes, length, All, ℤ, pos, pos_part,
  InRange, uint16, Bool-cases, inl, inr,
}
use ome_kafka_bridge.Common.{int32}
use ome_kafka_bridge.Binary.{be16, put_uvarint}
use ome_kafka_bridge.Broker.Reader.{Read, ◌>>=◌, ◌>>◌, pure, read_int16, read_int32, read_uvarint}
use ome_kafka_bridge.Broker.Outcome.{done}
use ome_kafka_bridge.Broker.Reader.{advance}
use ome_kafka_bridge.Broker.Reader.Parses.{start, Parses-whole}
use ome_kafka_bridge.Broker.Reader.Parses.{
  Parses, Parses-pure, Parses-bind, Parses-then, Parses-read_int16, Parses-read_int32,
  Parses-read_uvarint,
}
use ome_kafka_bridge.Broker.Writer.{Write}
use ome_kafka_bridge.Broker.Writer.Appends.{
  Appends, Appends-then, Appends-int16, Appends-int32, Appends-uvarint, Appends-each, concat_map,
}
use ome_kafka_bridge.Broker.ApiVersions.{
  ApiEntry, supported, write_entry, write_flexible_entry, api_versions_response,
}
use ome_kafka_bridge.Broker.Metadata.Request.{repeat}

pub record Answer : Type 0 where
  pub correlation_id : ℤ
  pub error_code : ℤ
  pub entries : List ApiEntry
  pub throttle_time_ms : ℤ

read_entry : Read ApiEntry
read_entry = do
  key ← read_int16
  min ← read_int16
  max ← read_int16
  pure (record { key = key; min = min; max = max })

read_flexible_entry : Read ApiEntry
read_flexible_entry = do
  key ← read_int16
  min ← read_int16
  max ← read_int16
  read_uvarint
  pure (record { key = key; min = min; max = max })

read_throttle : Bool → Read ℤ
read_throttle true = read_int32
read_throttle false = pure (pos 0)

-- By whether the version is flexible, and whether it has the throttle time.
read_body : Bool → Bool → Read Answer
unfolding repeat read_entry read_flexible_entry read_throttle
read_body true throttled = do
  corr ← read_int32
  code ← read_int16
  n ← read_uvarint
  entries ← repeat (n - 1) read_flexible_entry
  throttle ← read_int32
  read_uvarint
  pure (record {
    correlation_id = corr;
    error_code = code;
    entries = entries;
    throttle_time_ms = throttle;
  })
read_body false throttled = do
  corr ← read_int32
  code ← read_int16
  n ← read_int32
  entries ← repeat (pos_part n) read_entry
  throttle ← read_throttle throttled
  pure (record {
    correlation_id = corr;
    error_code = code;
    entries = entries;
    throttle_time_ms = throttle;
  })

pub read_answer : ℤ → Read Answer
unfolding read_body
read_answer version = read_body (at_least 3 version) (at_least 1 version)

pub Parses-repeat {ℓ κ} :
    {A : Type ℓ} (P : A → Type κ) (p : Read A) (enc : A → Bytes) (xs : List A)
    → ((x : A) → P x → Parses p (enc x) x)
    → All P xs
    → Parses (repeat (length xs) p) (concat_map enc xs) xs
unfolding repeat
Parses-repeat P p enc [] h all = Parses-pure []
Parses-repeat P p enc (x ∷ xs) h (hx, all) =
    Parses-bind _ (h x hx) (Parses-then _ (Parses-repeat P p enc xs h all))

abbrev EntryFits : ApiEntry → Type 0
EntryFits e = InRange (2 ^ 15) e.key × InRange (2 ^ 15) e.min × InRange (2 ^ 15) e.max

abbrev entry_bytes : ApiEntry → Bytes
entry_bytes e = be16 (uint16 e.key) ++ (be16 (uint16 e.min) ++ be16 (uint16 e.max))

abbrev flexible_entry_bytes : ApiEntry → Bytes
flexible_entry_bytes e =
    be16 (uint16 e.key) ++ (be16 (uint16 e.min) ++ (be16 (uint16 e.max) ++ put_uvarint 0))

Parses-read_entry : (e : ApiEntry) → EntryFits e → Parses read_entry (entry_bytes e) e
unfolding read_entry
Parses-read_entry e (hk, hlo, hhi) =
    Parses-bind _ (Parses-read_int16 e.key hk)
      (Parses-bind _ (Parses-read_int16 e.min hlo) (Parses-then _ (Parses-read_int16 e.max hhi)))

Parses-read_flexible_entry :
    (e : ApiEntry) → EntryFits e → Parses read_flexible_entry (flexible_entry_bytes e) e
unfolding read_flexible_entry
Parses-read_flexible_entry e (hk, hlo, hhi) = Parses-bind _ (Parses-read_int16 e.key hk) (
    Parses-bind _ (Parses-read_int16 e.min hlo) (
      Parses-bind _ (Parses-read_int16 e.max hhi)
        (Parses-then _ (Parses-read_uvarint 0 (omega arith)))))

Appends-entry : (e : ApiEntry) → Appends (write_entry e) (entry_bytes e)
unfolding write_entry
Appends-entry e =
    Appends-then (Appends-int16 e.key) (Appends-then (Appends-int16 e.min) (Appends-int16 e.max))

Appends-flexible_entry : (e : ApiEntry) → Appends (write_flexible_entry e) (flexible_entry_bytes e)
unfolding write_flexible_entry
Appends-flexible_entry e =
    Appends-then (Appends-int16 e.key)
      (Appends-then (Appends-int16 e.min) (Appends-then (Appends-int16 e.max) (Appends-uvarint 0)))

supported-Fits : All EntryFits supported
supported-Fits = omega arith

-- What was written is read back.
pub Parses-written {ℓ} :
    {A : Type ℓ} {f : Write} {p : Read A} {enc : Bytes} {v : A}
    → Appends f enc
    → Parses p enc v
    → Parses p (f []) v
Parses-written h parses = rw (h.runs []) parses

abbrev pub answer : ℤ → Answer
answer corr = record {
  correlation_id = corr;
  error_code = pos 0;
  entries = supported;
  throttle_time_ms = pos 0;
}

Parses-read_answer :
    (corr version : ℤ)
    → InRange (2 ^ 31) corr
    → at_least 1 version ≡ true
    → Parses (read_answer version) (api_versions_response corr version []) (answer corr)
unfolding api_versions_response read_answer read_body read_throttle int32
Parses-read_answer corr version hc throttled = elim (Bool-cases (at_least 3 version)) [
  | inl new ↦ rw new (
      Parses-written
        (Appends-then (Appends-int32 corr) (
          Appends-then (Appends-int16 (pos 0)) (
            Appends-then (Appends-uvarint 6) (
              Appends-then
                (Appends-each EntryFits write_flexible_entry flexible_entry_bytes supported
                  (λ e _. Appends-flexible_entry e) supported-Fits)
                (Appends-then (Appends-int32 (pos 0)) (Appends-uvarint 0))))))
        (Parses-bind _ (Parses-read_int32 corr hc) (
          Parses-bind _ (Parses-read_int16 (pos 0) (omega arith)) (
            Parses-bind _ (Parses-read_uvarint 6 (omega arith)) (
              Parses-bind _
                (Parses-repeat EntryFits read_flexible_entry flexible_entry_bytes supported
                  Parses-read_flexible_entry supported-Fits)
                (Parses-bind _ (Parses-read_int32 (pos 0) (omega arith))
                  (Parses-then _ (Parses-read_uvarint 0 (omega arith)))))))))
  | inr old ↦
      rw (old, throttled)
        (Parses-written
          (Appends-then (Appends-int32 corr) (
            Appends-then (Appends-int16 (pos 0)) (
              Appends-then (Appends-int32 (pos 5)) (
                Appends-then
                  (Appends-each EntryFits write_entry entry_bytes supported (λ e _. Appends-entry e)
                    supported-Fits)
                  (Appends-int32 (pos 0))))))
          (Parses-bind _ (Parses-read_int32 corr hc) (
            Parses-bind _ (Parses-read_int16 (pos 0) (omega arith)) (
              Parses-bind _ (Parses-read_int32 (pos 5) (omega arith)) (
                Parses-bind _
                  (Parses-repeat EntryFits read_entry entry_bytes supported Parses-read_entry
                    supported-Fits)
                  (Parses-then _ (Parses-read_int32 (pos 0) (omega arith))))))))
]

-- A client that reads the answer to ApiVersions of a version from 1 on by the layout of its version,
-- the flexible one from version 3 on, gets no error, the request's correlation id and the five kinds
-- of request with their versions, and has read every byte.
pub read_answer-api_versions_response :
    (corr version : ℤ)
    → InRange (2 ^ 31) corr
    → at_least 1 version ≡ true
    → length (api_versions_response corr version []) < 2 ^ 63
    → read_answer version (start (api_versions_response corr version []))
      ≡ done (
        answer corr,
        advance
            (length (api_versions_response corr version []))
            (start (api_versions_response corr version [])),
      )
read_answer-api_versions_response corr version hc throttled short =
    Parses-whole (Parses-read_answer corr version hc throttled) short
