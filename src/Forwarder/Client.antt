-- ===== src/Forwarder/Client.antt =====
-- The HTTP client of a forwarder and what the constructors share. Reading a file, parsing
-- certificates and a key pair are parameters, over the types of a certificate pool and a pair.
use ome_kafka_bridge.Common.{
  zero, suc, Bool, Option, none, some, [], ◌∷◌, Bytes, pos, negsuc, Result, ok, err,
}
use ome_kafka_bridge.Config.{TlsConfig, Duration}
use ome_kafka_bridge.Broker.Outcome.{Outcome, done, panic}

pub data ClientError : Type 0 where
  reading_ca_file loading_client_cert : ClientError

pub record HttpClient (Pool Pair : Type 0) : Type 0 where
  pub timeout : Duration
  pub insecure_skip_verify : Bool
  pub root_cas : Option Pool
  pub certificate : Option Pair

-- os.ReadFile, AppendCertsFromPEM on an empty pool, whose result is not looked at, and
-- tls.LoadX509KeyPair.
pub record Certificates : Type 1 where
  pub Pool : Type 0
  pub Pair : Type 0
  pub read_file : Bytes → Option Bytes
  pub pool_of : Bytes → Pool
  pub load_key_pair : Bytes → Bytes → Option Pair

module _ (certs : Certificates) where
  abbrev pub Client : Type 0
  Client = HttpClient certs.Pool certs.Pair

  unfoldable pub with_certificate : Bytes → Bytes → Client → Result ClientError Client
  with_certificate [] key client = ok client
  with_certificate (_ ∷ _) [] client = ok client
  with_certificate (c ∷ cert) (k ∷ key) client = elim (certs.load_key_pair (c ∷ cert) (k ∷ key)) [
    | none ↦ err loading_client_cert
    | some pair ↦ ok (record client { certificate = some pair })
  ]

  unfoldable pub build_http_client : TlsConfig → Duration → Result ClientError Client
  unfolding with_certificate
  build_http_client tls timeout =
      let client : Client = record {
        timeout = timeout;
        insecure_skip_verify = tls.insecure_skip_verify;
        root_cas = none;
        certificate = none;
      } in
      elim tls.ca_file [
        | [] ↦ with_certificate tls.cert_file tls.key_file client
        | c ∷ path ↦ elim (certs.read_file (c ∷ path)) [
          | none ↦ err reading_ca_file
          | some pem ↦
              with_certificate tls.cert_file tls.key_file
                (record client { root_cas = some (certs.pool_of pem) })
        ]
      ]

pub data NewError : Type 0 where
  compiling_rules : NewError
  building_client : ClientError → NewError

-- time.NewTicker panics if the interval is not positive.
unfoldable pub start_ticker {ℓ} : {A : Type ℓ} → Duration → A → Outcome A
start_ticker (pos zero) a = panic
start_ticker (pos (suc n)) a = done a
start_ticker (negsuc n) a = panic
