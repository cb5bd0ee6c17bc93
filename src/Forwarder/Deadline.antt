-- ===== src/Forwarder/Deadline.antt =====
-- The timeout of remote_write, which has no default.
use ome_kafka_bridge.Common.{◌≡◌, ◌≢◌, ◌∙◌, arith, Option, none, some, Bytes, pos}
use ome_kafka_bridge.Config.{Config, load}
use ome_kafka_bridge.Config.Defaults.{load-timeout}
use ome_kafka_bridge.Http.{Response, no_request, no_response, status, Request, check_response}
use ome_kafka_bridge.Forwarder.Metrics.{send, remote_write_request, in_context}

in_context-unset : (r : Response) → check_response (in_context (pos 0) r) ≢ none
unfolding check_response
in_context-unset no_request h = ground arith
in_context-unset no_response h = ground arith
in_context-unset (status code) h = ground arith

-- A configuration file that does not set the timeout of remote_write, or sets it to zero, and that
-- loads without an error: every body that is sent with it is an error, whatever the server answers.
pub send-no_timeout :
    (read_file : Bytes → Option Bytes) (unmarshal : Bytes → Option Config) (path contents : Bytes)
    (written loaded : Config) (base64 : Bytes → Bytes) (post : Request → Response) (body : Bytes)
    → read_file path ≡ some contents
    → unmarshal contents ≡ some written
    → written.remote_write.timeout ≡ pos 0
    → load read_file unmarshal path ≡ (some loaded, none)
    → send base64 post loaded.remote_write body ≢ none
unfolding send
send-no_timeout read_file unmarshal path contents written loaded base64 post body read decoded unset
      h =
    rw (load-timeout read_file unmarshal path contents written loaded read decoded h ∙ unset)
      (in_context-unset (post (remote_write_request base64 post loaded.remote_write body)))
