-- ===== src/Lib.antt =====
-- restreamer is a HTTP streaming proxy: it reads MPEG-TS packets from an upstream server and hands
-- each of them to all of its clients. This library models its own logic.
--
-- The parts, and the files that model them:
--   * protocol/packet.go, ReadMpegTsPacket: Protocol/Packet (the two reading loops, the scan for the
--     sync byte). The reader is the record Reader of Protocol/Reader, whose laws are those that
--     io.Reader documents.
--   * protocol/reader.go, FixedReader: Protocol/FixedReader, which implements Reader itself.
--   * configuration/config.go: Configuration (the structs, the defaults, LoadConfiguration). The
--     decoder of JSON is a parameter; text is a list of bytes.
--   * auth/authentication.go, auth/httpauth.go: Auth, with the store of users and tokens in
--     Auth/Tokens and base64 in Auth/Base64. The interface Authenticator is a data type with its four
--     implementations.
--   * event/queue.go, event/handlers.go: Event/Queue. Calls of handlers are values, in order.
--     Event/Reporter has the goroutine of the queue with its channels: a history is a list of calls and of
--     rounds, and a call that has to wait changes nothing.
--   * streaming/acl.go, AccessController: Streaming/Acl. The lock is held during each call, so a
--     history of calls is a list.
--   * streaming/connection.go: Streaming/Connection. What the select statement finds ready, and whether
--     a write succeeds, is given round by round.
--   * streaming/streamer.go: Streaming/Streamer has the loop and its commands, for any broker.
--     Streaming/Service has ServeHTTP: many handlers, each in a phase, with the loop and the
--     access controller; a schedule is a list of their steps in any order, and a handler that is not in
--     the phase of a step does nothing. Sending on an unbuffered channel and the receipt are one step.
--   * streaming/client.go: Streaming/Client has the client and an attempt to connect, its child Pull the
--     loop that reads packets, and its child Loop the loop that tries the URLs in turn. What Go's
--     network packages do during an attempt is a parameter (Sources), and so is how long it takes. A
--     read timeout closes the input, and so is an error of the reader. The streamer is given the
--     sequence of what is sent to its queue; the capacity of the queue only delays the client.
--   * streaming/proxy.go: Streaming/Proxy has Get, the fetcher and ServeHTTP, its child Etag the tag of a
--     content. Files, servers and the time of a request are parameters. The fetcher handles one
--     request after the other, so its history is a list. Streaming/Proxy/Exchange has many calls of
--     ServeHTTP at a time, which hand their requests over to the fetcher through its queue.
--   * Streaming/Relay puts the client and the streamer together. Streaming/Fleet has all streamers with the
--     access controller that they share.
--   * metrics/stats.go: Metrics/Collector (the counters of a stream, 64-bit words),
--     Metrics/Statistics (registration, delta, update, a tick) and Metrics/Updater (Start, Stop and the
--     goroutine, each step of which is one of its own). Collectors are held by the name of their stream
--     in the place of pointers; the rates, which are floating point numbers, are a parameter.
--   * util/log.go: Util/Log has the file logger; a history is a list of calls, arriving signals and
--     rounds of its loop, with what the file system does. Its child Keys has the dictionaries of
--     LogFunnel and ModuleLogger, and Loggers the loggers that pass lines on, with the global one.
--   * util/atomic.go: Util/Atomic. util/shuffle.go: Util/Shuffle, with the random source as a parameter.
--   * event/urlhandler.go: Event/UrlHandler.
--   * cmd/restreamer/restreamer.go: Main has the set-up of the resources, with the streams and the map
--     of clients, and its child Notifications that of the queue of events. Main/Program is
--     main from its arguments to the server. The multiplexer of Go's net/http is a map that panics for a pattern that is empty or in use. A stream is made with the
--     model of the client, the proxy and the authenticator, and refers to nothing that runs.
--   * api/api.go: Api, the five HTTP interfaces. The encoder of JSON and the handler of the Prometheus
--     library are parameters.
--
-- Prelude has the shared notation, association lists for maps, bytes, Go's channels (with a panic as an
-- outcome) and HTTP responses. Tests runs the models at concrete inputs.
--
-- Numbers are natural numbers; the counters of the statistics and of the access controller wrap
-- around at 2 ^ 64, and the count of the event queue is clamped as in the source. The reading loops
-- of ReadMpegTsPacket take one unit of fuel a round; a round reads a byte at least, so 189 units
-- are enough for 188 bytes. The loop of Client.pull takes
-- one unit a round, and a round that does not end it reads 188 bytes at least. No other loop needs
-- fuel: they follow a list of packets, messages, attempts or rounds.
--
-- The cache time of a proxy is meant to be below 292 years: above it, its number of nanoseconds wraps
-- around in the source, but not here. FullConnections is cast to a signed int for the queue of events;
-- the set-up of the queue panics where this is negative. The increment of the drop counter in
-- FileLogger.Logd is not synchronised, and may read any value here.
--
-- Not modelled: streaming/manager.go, util/set.go and event/heartbeat.go, which only wrap a map or a
-- ticker; profiling and listening in cmd/restreamer; log output, Prometheus, signals,
-- profiling, processes and sockets, the time (a parameter where it is written out), and the Flush of
-- responses.
pub mod Api
pub mod Auth
pub mod Configuration
pub mod Event
pub mod Main
pub mod Metrics
pub mod Prelude
pub mod Protocol
pub mod Streaming
pub mod Tests
pub mod Util
