-- ===== src/Examples/Requests.antt =====
-- Whole requests and connections.
use ome_kafka_bridge.Common.{
  ◌-◌, ◌^◌, ◌<◌, ◌≡◌, refl, arith, false, none, some, List, [], ◌∷◌, ◌++◌, Bytes, codes, length,
  take, pos,
}
use ome_kafka_bridge.Common.{◌≤◌, uint8, uint16, uint32}
use ome_kafka_bridge.Binary.{be16, be32, be64, put_uvarint, put_uvarint_loop}
use ome_kafka_bridge.Binary.Varint.{zigzag}
use ome_kafka_bridge.Broker.Outcome.{bind, done}
use ome_kafka_bridge.Broker.State.{capacity, new}
use ome_kafka_bridge.Broker.Metadata.{metadata_response}
use ome_kafka_bridge.Broker.Metadata.Topics.{encode_topics}
use ome_kafka_bridge.Broker.Produce.Response.{produce_response}
use ome_kafka_bridge.Broker.Produce.Encoding.{
  Record, Batch, Partition, Topic, Request, RequestFits, TopicFits, BatchFits, RecordFits,
  encode_request, encode_topic, encode_partition, encode_batch, encode_record, request_messages,
}
use ome_kafka_bridge.Broker.Request.{handle_request}
use ome_kafka_bridge.Broker.Request.Whole.{encode_header}
use ome_kafka_bridge.Broker.Request.Conn.{max_request, handle_conn}
use ome_kafka_bridge.Broker.Request.Produce.{produce_header, handle_request-produce}
use ome_kafka_bridge.Broker.Request.Metadata.{
  metadata_header, topics_after, handle_request-metadata,
}
use ome_kafka_bridge.Broker.Request.Safety.{Served, handle_request-Served}
use ome_kafka_bridge.Broker.Request.Ends.{Finished, handle_conn-Finished}
use ome_kafka_bridge.Broker.Request.Stream.{sized, IsBody, answers, sent_back, handle_conn-answers}
use ome_kafka_bridge.Broker.Writer.Appends.{concat_map}
use ome_kafka_bridge.Examples.{telemetry, alerts, broker}

abbrev reading : Record
reading = record {
  size = pos 20;
  attributes = pos 0;
  timestamp_delta = pos 0;
  offset_delta = pos 0;
  key = codes "k";
  value = codes "{}";
  headers = [];
}

abbrev pub batch : Batch
batch = record {
  base_offset = 0;
  batch_length = 70;
  leader_epoch = 0;
  crc = 77;
  attributes = 0;
  last_offset_delta = 1;
  base_timestamp = pos 1700000000000;
  max_timestamp = 1700000000000;
  producer_id = 0;
  producer_epoch = 0;
  base_sequence = 4294967295;
  records = reading ∷ reading ∷ [];
}

abbrev pub partition : Partition
partition = record { index = pos 0; size = 90; batch = batch }

abbrev pub topic : Topic
topic = record { name = telemetry; partitions = partition ∷ [] }

abbrev pub request : Request
request = record { transactional_id = none; acks = 1; timeout = 1000; topics = topic ∷ [] }

reading-RecordFits : RecordFits reading
reading-RecordFits = record {
  size = omega arith;
  attributes = omega arith;
  timestamp_delta = omega arith;
  offset_delta = omega arith;
  key = omega arith;
  value = omega arith;
  count = omega arith;
  headers = tt;
}

batch-BatchFits : BatchFits batch
batch-BatchFits = record {
  base_timestamp = omega arith;
  count = omega arith;
  records = (reading-RecordFits, (reading-RecordFits, tt));
}

topic-TopicFits : TopicFits topic
topic-TopicFits = record {
  name = omega arith;
  count = omega arith;
  partitions = (record { index = omega arith; batch = batch-BatchFits }, tt);
}

pub request-RequestFits : RequestFits request
request-RequestFits = record {
  transactional_id = tt;
  count = omega arith;
  topics = (topic-TopicFits, tt);
}

abbrev pub produce_body : Bytes
produce_body =
    encode_header (produce_header (pos 3) (pos 7)) (some (codes "ome"))
    ++ encode_request encode_batch request

pub produce_body-short : length produce_body < 2 ^ 63
unfolding encode_request encode_topic encode_partition encode_batch encode_record put_uvarint
    put_uvarint_loop be16 be32 be64 uint8 uint16 uint32 zigzag
produce_body-short = omega arith

pub produce_body-within : length produce_body ≤ max_request
unfolding encode_request encode_topic encode_partition encode_batch encode_record put_uvarint
    put_uvarint_loop be16 be32 be64 uint8 uint16 uint32 zigzag
produce_body-within = omega arith

pub broker-room : length broker.msg_ch ≤ capacity
unfolding new
broker-room = omega arith

-- The channel gets the two records, and the answer is the empty one.
handle_request-produce_example :
    handle_request (λ ts. ts) broker produce_body
    ≡ done (
      some (produce_response false (pos 7) []),
      record broker {
        msg_ch = broker.msg_ch ++ take (capacity - length broker.msg_ch) (request_messages request);
      },
    )
handle_request-produce_example =
    handle_request-produce (λ ts. ts) broker (pos 3) (pos 7) (some (codes "ome")) request
      (omega arith) (omega arith) refl (omega arith) request-RequestFits produce_body-short
      broker-room

abbrev wanted : List Bytes
wanted = alerts ∷ telemetry ∷ []

abbrev metadata_body : Bytes
metadata_body =
    encode_header (metadata_header (pos 5) (pos 8)) (some (codes "ome"))
    ++ encode_topics false wanted

metadata_body-short : length metadata_body < 2 ^ 63
unfolding be16 be32 uint16 uint32
metadata_body-short = omega arith

handle_request-metadata_example :
    handle_request (λ ts. ts) broker metadata_body
    ≡ done (
      some (metadata_response (pos 5) broker.cfg (topics_after broker wanted) (pos 8) []),
      record broker { topic_set = topics_after broker wanted },
    )
handle_request-metadata_example =
    handle_request-metadata (λ ts. ts) broker (pos 5) (pos 8) (some (codes "ome")) wanted
      (omega arith) (omega arith) refl (omega arith) (omega arith) (omega arith, (omega arith, tt))
      metadata_body-short

handle_request-Served_example : Served broker (handle_request (λ ts. ts) broker produce_body)
handle_request-Served_example =
    handle_request-Served (λ ts. ts) broker produce_body produce_body-short

-- The stream stops short inside the third size.
abbrev pub stream : Bytes
stream = concat_map sized (metadata_body ∷ produce_body ∷ []) ++ (0 ∷ 0 ∷ [])

handle_conn-Finished_example : Finished (handle_conn (handle_request (λ ts. ts)) broker stream)
handle_conn-Finished_example = handle_conn-Finished (λ ts. ts) broker stream

metadata_body-IsBody : IsBody metadata_body
unfolding be16 be32 uint16 uint32
metadata_body-IsBody = (omega arith, omega arith)

produce_body-IsBody : IsBody produce_body
unfolding encode_request encode_topic encode_partition encode_batch encode_record put_uvarint
    put_uvarint_loop be16 be32 be64 uint8 uint16 uint32 zigzag
produce_body-IsBody = (omega arith, omega arith)

broker-open : broker.closed ≡ false
unfolding new
broker-open = refl

handle_conn-answers_example :
    handle_conn (handle_request (λ ts. ts)) broker stream
    ≡ bind
        (answers (handle_request (λ ts. ts)) broker (metadata_body ∷ produce_body ∷ []))
        (sent_back [])
handle_conn-answers_example =
    handle_conn-answers (λ ts. ts) (metadata_body ∷ produce_body ∷ []) (0 ∷ 0 ∷ []) broker
      (metadata_body-IsBody, (produce_body-IsBody, tt)) (omega arith) broker-open
