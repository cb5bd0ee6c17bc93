-- ===== src/Http.antt =====
-- The end of an HTTP exchange, as lokiwriter and the forwarder read it. The client and the server are
-- a parameter of those who send, a function from the request to its response.
use ome_kafka_bridge.Common.{ℕ, ◌/◌, ◌==◌, if◌then◌else◌, Option, none, some, List, Bytes}

pub data HttpError : Type 0 where
  new_request_failed request_failed : HttpError
  http_status : ℕ → HttpError

-- What the request comes to: it cannot be made, it fails, or there is a status.
pub data Response : Type 0 where
  no_request no_response : Response
  status : ℕ → Response

-- `if resp.StatusCode/100 != 2`; `none` is the nil error.
unfoldable pub check_response : Response → Option HttpError
check_response no_request = some new_request_failed
check_response no_response = some request_failed
check_response (status code) = if code / 100 == 2 then none else some (http_status code)

pub record Request : Type 0 where
  pub url : Bytes
  pub headers : List (Bytes × Bytes)
  pub body : Bytes
