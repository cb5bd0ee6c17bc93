-- ===== src/Lib.antt =====
-- A verification library for ome-kafka-bridge.
--
-- The bridge poses as a Kafka broker for OpenManage Enterprise (OME), decodes the records that OME
-- produces, parses them into metric samples and log entries, and forwards these in batches to
-- remote_write and Loki. This library models internal/broker/broker.go, internal/parser/parser.go,
-- internal/forwarder/forwarder.go, internal/cache/cache.go, internal/config/config.go,
-- internal/relabel/relabel.go, pkg/prompb/prompb.go, pkg/lokiwriter/writer.go and
-- main.go, with the goroutines that it starts.
--
-- Common, Binary: lists of bytes, signed numbers with their wrap-around, and what the code uses of
-- Go's encoding/binary: big-endian numbers, uvarints and zigzag varints. A byte is a number, and a Go
-- string is the list of its bytes.
--
-- Config: the structs of config.go, Load, applyDefaults and validate. The file system and the YAML
-- decoder are parameters.
--
-- Broker: the broker, from the bytes of a connection to the message channel.
--   Outcome: a result, a Go panic, or a loop of the model that ran out of fuel.
--   Reader, Writer: the methods of `reader` and `writer`. A reading action takes the buffer and the
--     position to a value and the next position; Go's panics on slices are outcomes. What it means
--     that an action reads a value from its encoding is in Reader/Parses, that it panics on it in
--     Reader/Panics, and that it ends and never goes back in Reader/Steady.
--   State: the fields of `Broker`, New, Close, and sending into the channel of 4096 messages. What
--     requests do to it is in State/Grown.
--   Listen: Start, Messages and acceptLoop.
--   ApiVersions: handleAPIVersions, the SASL answers and buildErrorResponse.
--   Metadata: handleMetadata. Go ranges over the topic set in an order of its own, which is a
--     parameter of the model.
--   Records: decodeRecordBatch and the decoders that it calls.
--   Produce: handleProduce. Produce/Encoding is the layout of a request, written independently of
--     the decoders.
--   Request: handleRequest, and in Request/Conn handleConn over the bytes of a connection.
--
-- Parser: Parse and what it calls. Go's library (JSON, times, floats, lower case) is the record Platform
-- of Parser/Values. Parser/Topics is topicKind, Parser/Names is sanitizeMetricName over the bytes of
-- UTF-8, Parser/Model the types.
--
-- Forwarder: forwarder.go. Metrics and Logs are the two forwarders, Client is buildHTTPClient and the
-- ticker. A method returns the forwarder as it leaves it and what it sends. Interleave is the run of
-- any number of goroutines: Submit appends under the lock and a flush takes the batch under the lock,
-- so a run is a sequence of these two actions.
--
-- Cache: cache.go, on a file system that is an interface (Cache/Files) with an implementation in memory
-- (Cache/Memory). A replay returns the disk and what it hands to the callbacks.
--
-- Main: processMessage and the callbacks that connect the cache and the forwarders; Main/Start is the
-- start of the parts, with its fatal errors and panics, and Main/Api the HTTP handlers and the logger.
--
-- Main/Process: the running program as a step relation. A process is the broker, the disk, the cache,
-- the pipeline, the statement that main is at, the channels that end the goroutines, and which loops
-- have not returned. A step is one of them going on: a request is handled, the pipeline takes a
-- message, the pipeline or the retry loop appends to a forwarder or flushes it (Main/Tasks), a flush
-- loop flushes, the retry loop comes to a file or removes it, or main does the next statement of its
-- shutdown. A trace is any sequence of steps of a process that is alive; it ends when main returns or
-- something panics. Invariant, Advance and Sound are what holds of every process, Starts ties it to the
-- start, Covered is what holds of the queues, Spool the effect on the disk, Perform and Consume are the
-- pipeline at work, Ended the end of a flush loop, Shutdown and Drain the shutdown, and Delivery the
-- way of a produce request.
--
-- Labels, Http: maps of labels, which the parser, the rules and the forwarders share, and the HTTP
-- exchange of both senders, with its check of the status.
--
-- Prompb: Marshal of prompb.go and the functions that it calls. Prompb/Wire and Prompb/RoundTrip are a
-- receiver that reads the protobuf fields, written independently of the code. A float64 is its bits.
--
-- Lokiwriter: Push and fingerprint of writer.go. The JSON encoder and the HTTP client are parameters,
-- and so is the order in which Go ranges over the map of streams. Lokiwriter/Maps, Injective and
-- Quotient are the fingerprint as a function of the map that a list of labels stands for.
--
-- Relabel: New and Apply of relabel.go. A regular expression is a parameter, with its MatchString and
-- ReplaceAllString, and so are the names that a loop over a map visits.
--
-- Examples: a broker, a configuration, messages, forwarders and a cache at which the theorems are
-- applied.
--
-- Loops over a count of the request are structural on that count. Two loops have fuel: handleConn has
-- one more than the bytes of the stream, and each round takes four bytes or more; the legacy decoder
-- has the bytes that remain, and each round takes twelve or more. The reader of protobuf fields has
-- the length of its message, and each field takes a byte.
--
-- The loop over the files of a replay takes the number of rounds that its deadline leaves; every
-- number is allowed.
--
-- Submit is two steps, the append under the lock and the flush after it, with any others in between. A
-- flush is one: the batch is taken under the lock, and what is sent is listed in the order in which
-- the batches are taken. What becomes of a body is up to `send`, whose error is only logged. A request
-- is handled in one step: the lock of the topic set is left out, and the consumer of the channel,
-- which only makes room, comes between requests. A ticker may tick at any time,
-- also after it is stopped, when a tick can still be in its channel. The signal may come at any time.
-- The bytes of a buffer are fewer than 2 ^ 63, as in Go.
--
-- Not modelled: in main.go the parsing of flags, the definitions of the counters, the HTTP server and
-- its shutdown, and how a signal is delivered; in the broker deadlines, failing writes and the memory
-- that an allocation needs; logging everywhere. The counters of messages are lists of increments, and
-- the latency histogram is left out.
pub mod Binary
pub mod Broker
pub mod Cache
pub mod Common
pub mod Config
pub mod Examples
pub mod Forwarder
pub mod Http
pub mod Labels
pub mod Lokiwriter
pub mod Main
pub mod Parser
pub mod Prompb
pub mod Relabel
