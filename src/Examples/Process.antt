-- ===== src/Examples/Process.antt =====
-- A program that starts with a batch on its disk, gets a request, and is shut down.
use ome_kafka_bridge.Common.{
  none, ◌≡◌, refl, arith, ◌++◌, ◌-◌, some, List, [], ◌∷◌, Bytes, codes, str_eq, length, sort, take,
  pos, negsuc, Option, true, false, ok,
}
use ome_kafka_bridge.Config.{Config, int_or, text_or, list_or, load, validate, apply_defaults}
use ome_kafka_bridge.Broker.Outcome.{done}
use ome_kafka_bridge.Broker.State.{Message, capacity, new}
use ome_kafka_bridge.Broker.Produce.Response.{produce_response}
use ome_kafka_bridge.Broker.Produce.Encoding.{request_messages}
use ome_kafka_bridge.Broker.Request.Produce.{handle_request-produce}
use ome_kafka_bridge.Cache
use ome_kafka_bridge.Cache.Memory.{memory}
use ome_kafka_bridge.Forwarder.Metrics.{new_metrics_forwarder}
use ome_kafka_bridge.Forwarder.Logs.{new_log_forwarder}
use ome_kafka_bridge.Main.{nothing}
use ome_kafka_bridge.Main.Events.{Event, metrics_tick}
use ome_kafka_bridge.Labels.{delete, lookup}
use ome_kafka_bridge.Cache.{
  entries_of, list_entries, retry_metrics, replay_path, replay_entry, retry_of,
}
use ome_kafka_bridge.Main.Tasks.{add_samples, perform, afterwards, retry_tasks}
use ome_kafka_bridge.Main.Start.{
  Running, start_cache, start_loaded, start, with_cache, with_metrics_forwarder, with_log_forwarder,
  start_broker, build_topic_set,
}
use ome_kafka_bridge.Main.Process.{
  Process, initial, World, Trace, served, round_began, replayed, here, next, is_alive, serving,
  returned, come_to, does, happens, retry_performed, file_removed,
}
use ome_kafka_bridge.Main.Process.Invariant.{IsSound}
use ome_kafka_bridge.Main.Process.Starts.{start-IsSound}
use ome_kafka_bridge.Main.Process.Run.{run}
use ome_kafka_bridge.Main.Process.Spool.{IsThinned, Trace-IsThinned}
use ome_kafka_bridge.Main.Process.Shutdown.{Reaches, view, shutdown-loses}
use ome_kafka_bridge.Main.Process.Delivery.{produce-delivers}
use ome_kafka_bridge.Main.Process.Drain.{rest_of}
use ome_kafka_bridge.Examples.{kafka_config, broker}
use ome_kafka_bridge.Examples.Messages.{platform, sample}
use ome_kafka_bridge.Examples.Batches.{
  range, order, compress, remote_write, loki, metrics_forwarder, log_forwarder,
}
use ome_kafka_bridge.Examples.Pipeline.{certs, compile, trim, listen}
use ome_kafka_bridge.Examples.Requests.{
  request, request-RequestFits, produce_body, produce_body-short, produce_body-within, broker-room,
}
use ome_kafka_bridge.Examples.Settings.{settings}
use ome_kafka_bridge.Examples.Spool.{config, encode_json, decode_json, samples_disk}

abbrev world : World
world = record {
  fs = memory;
  marshal = encode_json;
  unmarshal = decode_json;
  range = range;
  order = order;
  compress = compress;
  platform = platform;
}

abbrev conf : Config
conf = record settings {
  kafka = kafka_config;
  remote_write = remote_write;
  loki = loki;
  cache = config;
}

abbrev read_file : Bytes → Option Bytes
read_file path = some []

abbrev unmarshal : Bytes → Option Config
unmarshal contents = some conf

abbrev running : Running memory
running = record {
  conf = apply_defaults conf;
  disk = samples_disk;
  cache = some (record { cfg = config; on_retry_metrics = true; on_retry_logs = true });
  pipeline = record {
    metrics_topics = (apply_defaults conf).topic_routing.metrics_topics;
    log_topics = (apply_defaults conf).topic_routing.log_topics;
    metrics_fwd = record metrics_forwarder { extra_labels = [] };
    log_fwd = record log_forwarder { extra_labels = [] };
    received = [];
    dropped = [];
  };
  broker = broker;
}

running-start :
    start memory encode_json decode_json compile certs trim listen read_file unmarshal
      (codes "config.yaml")
      samples_disk
    ≡ done (ok running)
unfolding start load validate apply_defaults start_loaded start_cache with_cache Cache.new
    with_metrics_forwarder with_log_forwarder start_broker build_topic_set new_metrics_forwarder
    new_log_forwarder int_or text_or list_or
running-start = refl

abbrev messages : List Message
messages = take (capacity - length broker.msg_ch) (request_messages request)

-- After the request: its two records are in the channel.
abbrev filled : Process memory
filled = record (initial memory running) {
  broker = record broker { msg_ch = broker.msg_ch ++ messages };
}

filled-Trace : Trace world (initial memory running) nothing filled
unfolding initial is_alive
filled-Trace = next here refl (
    served (λ ts. ts) produce_body (some (produce_response false (pos 7) [])) filled.broker
      produce_body-within
      (handle_request-produce (λ ts. ts) broker (pos 3) (pos 7) (some (codes "ome")) request
        (omega arith) (omega arith) refl (omega arith) request-RequestFits produce_body-short
        broker-room))

abbrev cache : Cache.Cache
cache = record { cfg = config; on_retry_metrics = true; on_retry_logs = true }

-- The retry loop finds the batch on the disk, and hands its sample to the forwarder.
abbrev path : Bytes
path = codes "c/metrics_5.json"

abbrev in_round : Process memory
in_round = record filled { round = some (negsuc 49, path ∷ []) }

in_round-Trace : Trace world (initial memory running) nothing in_round
unfolding initial is_alive entries_of list_entries sort
in_round-Trace = next filled-Trace refl (round_began cache (pos 50) refl refl refl refl)

-- The callback is to be called, and has appended the sample.
abbrev called : Process memory
called = record in_round {
  retry_todo = retry_tasks (retry_metrics (sample ∷ []));
  leaving = some path;
  round = some (negsuc 49, []);
}

called-Trace : Trace world (initial memory running) nothing called
unfolding initial is_alive replay_path replay_entry lookup str_eq retry_of come_to
called-Trace = next in_round-Trace refl (replayed cache (negsuc 49) path [] refl refl refl refl)

abbrev retried : Process memory
retried = record called {
  pipeline = (does world (add_samples (sample ∷ [])) running.pipeline).0;
  retry_todo = [];
}

retried-Trace : Trace world (initial memory running) nothing retried
unfolding initial is_alive retry_tasks perform afterwards
retried-Trace = next called-Trace refl (retry_performed (add_samples (sample ∷ [])) [] refl)

-- The file of the batch is removed after that.
abbrev removed : Process memory
removed = record retried { disk = memory.remove samples_disk path; leaving = none }

removed-Trace : Trace world (initial memory running) nothing removed
unfolding initial is_alive
removed-Trace = next retried-Trace refl (file_removed path refl refl)

Trace-IsThinned_example : IsThinned memory (initial memory running).disk removed.disk
Trace-IsThinned_example = Trace-IsThinned world removed-Trace

-- The file of the batch is gone.
removed-disk : removed.disk ≡ []
unfolding replay_path replay_entry delete lookup str_eq retry_of
removed-disk = refl

filled-IsSound : IsSound world 2 2 filled
unfolding apply_defaults int_or
filled-IsSound =
    (start-IsSound world compile certs trim listen read_file unmarshal (codes "config.yaml")
      samples_disk running 2 2 filled nothing running-start refl refl filled-Trace).0

shutdown-loses_example :
    Reaches world 2 2 filled nothing (record (view world filled) { stage = returned })
unfolding initial
shutdown-loses_example = shutdown-loses world 2 2 filled filled-IsSound refl

abbrev rest : List Event
rest = rest_of filled.broker.msg_ch

running-IsSound : IsSound world 2 2 (initial memory running)
unfolding apply_defaults int_or
running-IsSound =
    (start-IsSound world compile certs trim listen read_file unmarshal (codes "config.yaml")
      samples_disk running 2 2 (initial memory running) nothing running-start refl refl here).0

abbrev accepted : List Message
accepted = (initial memory running).broker.msg_ch ++ request_messages request

produce-delivers_example :
    Reaches world 2 2
      (initial memory running)
      (run world (rest_of accepted) (initial memory running).pipeline).1
      (record (view world (initial memory running)) {
        stage = serving;
        channel = [];
        todo = [];
        pipeline = (run world (rest_of accepted) (initial memory running).pipeline).0;
      })
unfolding initial new
produce-delivers_example =
    produce-delivers world 2 2 (omega arith) (omega arith) (initial memory running) (pos 3) (pos 7)
      (some (codes "ome")) request running-IsSound refl refl (omega arith) (omega arith) refl
      (omega arith) request-RequestFits produce_body-within (omega arith)

-- Main has closed the metrics forwarder, and a sample is pending.
abbrev closing : Process memory
closing = record retried { metrics_closed = true }

abbrev ended : Process memory
ended = record closing {
  pipeline = (happens world metrics_tick closing.pipeline).0;
  flushing_metrics = false;
}
