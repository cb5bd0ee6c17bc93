-- ===== src/Lokiwriter.antt =====
-- pkg/lokiwriter/writer.go: a batch of log entries, grouped by their labels and pushed to Loki. The
-- JSON encoder, the HTTP client and the order in which Go ranges over a map are parameters. A label
-- set is a list of names and values that has each name once.
pub mod Group
pub mod Fingerprint
pub mod Maps
pub mod Injective
pub mod Quotient
use ome_kafka_bridge.Common.{
  ℕ, ◌/◌, Bool, true, false, ltb, ◌==◌, ◌||◌, ◌&&◌, if◌then◌else◌, Option, none, some, List, [],
  ◌∷◌, ◌++◌, map, Bytes, codes, ℤ, str_eq, sort,
}
use ome_kafka_bridge.Http.{HttpError, Response, Request, check_response}
use ome_kafka_bridge.Labels.{Labels, get}

-- The timestamp is in nanoseconds.
pub record Entry : Type 0 where
  pub stream_labels : Labels
  pub timestamp : ℤ
  pub line : Bytes

-- A value is the timestamp, which the source prints in decimal, and the line.
pub record Stream : Type 0 where
  pub stream : Labels
  pub values : List (ℤ × Bytes)

unfoldable pub write_keys : Labels → List Bytes → Bytes
unfolding get
write_keys labels [] = []
write_keys labels (k ∷ ks) =
    k ++ (codes "=" ++ (get labels k ++ (codes "," ++ write_keys labels ks)))

unfoldable pub fingerprint : Labels → Bytes
unfolding sort write_keys
fingerprint labels = write_keys labels (sort (map (λ (k, _). k) labels))

-- The map `grouped`, as a list of its keys and values.
abbrev pub Grouped : Type 0
Grouped = List (Bytes × Stream)

unfoldable pub find : Grouped → Bytes → Option Stream
find [] fp = none
find ((k, s) ∷ grouped) fp = if str_eq k fp then some s else find grouped fp

-- grouped[fp].Values = append(grouped[fp].Values, v)
unfoldable pub append_value : Bytes → ℤ × Bytes → Grouped → Grouped
append_value fp v [] = []
append_value fp v ((k, s) ∷ grouped) =
    let rest = append_value fp v grouped in
    if str_eq k fp then (k, record s { values = s.values ++ v ∷ [] }) ∷ grouped else (k, s) ∷ rest

-- `if _, ok := grouped[fp]; !ok`
unfoldable pub add_stream : Bytes → Labels → Grouped → Grouped
unfolding find
add_stream fp labels grouped = elim (find grouped fp) [
  | none ↦ grouped ++ (fp, record { stream = labels; values = [] }) ∷ []
  | some _ ↦ grouped
]

unfoldable pub add_entry : Grouped → Entry → Grouped
unfolding fingerprint add_stream append_value
add_entry grouped e =
    let fp = fingerprint e.stream_labels in
    append_value fp (e.timestamp, e.line) (add_stream fp e.stream_labels grouped)

unfoldable pub group : Grouped → List Entry → Grouped
unfolding add_entry
group grouped [] = grouped
group grouped (e ∷ es) = group (add_entry grouped e) es

pub data PushError : Type 0 where
  marshal_failed : PushError
  http : HttpError → PushError

abbrev pub http_error : Option HttpError → Option PushError
http_error none = none
http_error (some e) = some (http e)

abbrev push_request : Bytes → Bytes → Request
push_request url body = record {
  url = url;
  headers = (codes "Content-Type", codes "application/json") ∷ [];
  body = body;
}

-- `none` is the nil error.
module _ (order : List Stream → List Stream) (marshal_json : List Stream → Option Bytes)
    (post : Request → Response) (url : Bytes) where
  unfoldable pub push : List Entry → Option PushError
  unfolding group check_response
  push entries = elim (marshal_json (order (map (λ (_, s). s) (group [] entries)))) [
    | none ↦ some marshal_failed
    | some body ↦ http_error (check_response (post (push_request url body)))
  ]
