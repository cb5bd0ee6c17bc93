-- ===== src/Forwarder/Metrics.antt =====
-- MetricsForwarder: metric samples, sent by remote_write. A method returns the forwarder as it
-- leaves it, and the body that it hands to `send`, if there is one; the error of `send`, which has a
-- deadline of its own, is only logged.
use ome_kafka_bridge.Common.{
  ℕ, zero, suc, ◌/◌, Bool, true, leb, if◌then◌else◌, Option, none, some, ◌>>=◌, List, [], ◌∷◌, ◌++◌,
  map, Bytes, codes, length, filter_map, ℤ, pos, negsuc, Result, ok, err,
}
use ome_kafka_bridge.Config.{RemoteWriteConfig, RelabelConfig, Duration}
use ome_kafka_bridge.Labels.{Labels, set, merge}
use ome_kafka_bridge.Broker.Outcome.{Outcome, done}
use ome_kafka_bridge.Parser.Model.{Time, MetricSample}
use ome_kafka_bridge.Relabel
use ome_kafka_bridge.Relabel.{Regexp, CompiledRule}
use ome_kafka_bridge.Prompb.{TimeSeries, marshal}
use ome_kafka_bridge.Http.{
  HttpError, Response, no_request, no_response, status, Request, check_response,
}
use ome_kafka_bridge.Forwarder.Client.{
  NewError, compiling_rules, building_client, Certificates, build_http_client, start_ticker,
}

-- The client and the ticker serve `send` and the loop, and are left out.
pub record MetricsForwarder : Type 0 where
  pub cfg : RemoteWriteConfig
  pub extra_labels : Labels
  pub rules : List CompiledRule
  pub pending : List MetricSample

-- Rules that do not compile are an error before the client is.
module _ (compile : Bytes → Option Regexp) (certs : Certificates) where
  unfoldable pub new_metrics_forwarder :
      RemoteWriteConfig → Labels → List RelabelConfig → Outcome (Result NewError MetricsForwarder)
  unfolding build_http_client start_ticker Relabel.new
  new_metrics_forwarder cfg extra relabel_cfgs = elim (Relabel.new compile relabel_cfgs) [
    | none ↦ done (err compiling_rules)
    | some rules ↦ elim (build_http_client certs cfg.tls cfg.timeout) [
      | err e ↦ done (err (building_client e))
      | ok client ↦
          start_ticker cfg.flush_interval
            (ok (record { cfg = cfg; extra_labels = extra; rules = rules; pending = [] }))
    ]
  ]

-- `sz >= f.cfg.BatchSize`
abbrev pub reaches : ℤ → ℕ → Bool
reaches (pos size) sz = leb size sz
reaches (negsuc _) sz = true

-- UnixMilli of an instant in nanoseconds, rounded down
abbrev pub unix_milli : Time → ℤ
unix_milli (pos n) = pos (n / 1000000)
unix_milli (negsuc n) = negsuc (n / 1000000)

-- The label set of a sample before relabelling: its own labels over the extra ones.
unfoldable pub sample_labels : Labels → MetricSample → Labels
unfolding merge set
sample_labels extra s = set (merge (merge [] extra) s.labels) (codes "__name__") s.name

-- What the flush loop waits for: its ticker, or the end.
pub data LoopEvent : Type 0 where
  tick stop : LoopEvent

abbrev pub add_body : Option Bytes → List Bytes → List Bytes
add_body none bodies = bodies
add_body (some body) bodies = body ∷ bodies

-- The order in which Go ranges over the labels, for the names that a rule visits and for the labels of
-- a series; and snappy.Encode.
module _ (range : Labels → List Bytes) (order : Labels → Labels) (compress : Bytes → Bytes) where
  abbrev pub series_of : Labels → MetricSample → TimeSeries
  series_of labels s = record {
    labels = map (λ (k, v). record { name = k; value = v }) (order labels);
    samples = record { value = s.value; timestamp = unix_milli s.timestamp } ∷ [];
  }

  -- A sample that a rule drops gives no series.
  unfoldable pub to_series : MetricsForwarder → MetricSample → Option TimeSeries
  to_series f s =
      let (keep, labels) = Relabel.apply range f.rules (sample_labels f.extra_labels s) in
      if keep then some (series_of labels s) else none

  -- The series of a batch, marshalled and compressed; nothing if all are dropped or there is an error.
  unfoldable pub encode_batch : List TimeSeries → Option Bytes
  encode_batch [] = none
  encode_batch (ts ∷ rest) = do
    bytes ← marshal (record { timeseries = ts ∷ rest })
    some (compress bytes)

  -- The batch is taken, and the rest works on it: a batch is gone whatever becomes of it.
  unfoldable pub flush_batch :
      List MetricSample → MetricsForwarder → MetricsForwarder × Option Bytes
  unfolding encode_batch
  flush_batch [] f = (f, none)
  flush_batch (s ∷ batch) f =
      (record f { pending = [] }, encode_batch (filter_map (to_series f) (s ∷ batch)))

  -- What becomes of the body is up to `send`.
  unfoldable pub flush : MetricsForwarder → MetricsForwarder × Option Bytes
  unfolding flush_batch
  flush f = flush_batch f.pending f

  -- The part of Submit that holds the lock.
  unfoldable pub append_samples : MetricsForwarder → List MetricSample → MetricsForwarder
  append_samples f samples = record f { pending = f.pending ++ samples }

  unfoldable pub submit : MetricsForwarder → List MetricSample → MetricsForwarder × Option Bytes
  unfolding flush append_samples
  submit f samples =
      let f' = append_samples f samples in
      if reaches f.cfg.batch_size (length f'.pending) then flush f' else (f', none)

  -- The bodies that the flush loop hands to `send`, until it is stopped.
  unfoldable pub flush_loop : MetricsForwarder → List LoopEvent → MetricsForwarder × List Bytes
  flush_loop f [] = (f, [])
  flush_loop f (tick ∷ events) =
      let (f', body) = flush f in
      let (f'', bodies) = flush_loop f' events in (f'', add_body body bodies)
  flush_loop f (stop ∷ events) = let (f', body) = flush f in (f', add_body body [])

-- The context of a request: if the timeout is not positive, its deadline has passed before the client
-- sends anything. A deadline that passes later is a response that `post` gives.
abbrev pub in_context : Duration → Response → Response
in_context timeout no_request = no_request
in_context timeout no_response = no_response
in_context (pos zero) (status code) = no_response
in_context (pos (suc n)) (status code) = status code
in_context (negsuc n) (status code) = no_response

-- send, and what the client and the server make of a request.
module _ (base64 : Bytes → Bytes) (post : Request → Response) where
  abbrev authorization : Bytes → Bytes → List (Bytes × Bytes)
  authorization [] password = []
  authorization (c ∷ name) password =
      (codes "Authorization", codes "Basic " ++ base64 ((c ∷ name) ++ (codes ":" ++ password))) ∷ []

  abbrev pub remote_write_request : RemoteWriteConfig → Bytes → Request
  remote_write_request cfg body = record {
    url = cfg.url;
    headers =
        (codes "Content-Type", codes "application/x-protobuf")
        ∷ (codes "Content-Encoding", codes "snappy")
        ∷ (codes "X-Prometheus-Remote-Write-Version", codes "0.1.0")
        ∷ authorization cfg.username cfg.password;
    body = body;
  }

  unfoldable pub send : RemoteWriteConfig → Bytes → Option HttpError
  unfolding check_response
  send cfg body = check_response (in_context cfg.timeout (post (remote_write_request cfg body)))
