-- ===== src/Lib.antt =====
-- The load engine of sortie (engine/): a fork of Nighthawk that sends requests at a given rate and
-- measures what comes back. Modelled are the parts that decide what is sent and when, and how what
-- comes back is matched.
--
-- How the program runs: a worker has a sequencer, which a dispatcher's timers wake up. Each run
-- asks the chain of termination predicates whether to stop, and then, as often as its rate limiter
-- lets an acquisition through, calls its target, the benchmark client. The client reports through
-- a completion callback; a target that has no capacity has its acquisition handed back.
--
-- RateLimiter: engine/source/common/rate_limiter_impl.{h,cc}, a module for each class, over the
--   interface of engine/include/nighthawk/common/rate_limiter.h as a record of operations that the
--   wrapping limiters take as a parameter. Linear, Ramping and the gradually opening filter compute
--   in doubles: the operations of double are a parameter (Prelude/Double), and what a theorem needs
--   of them, that the number due does not fall as time passes, is a hypothesis of it. The loop of
--   BurstingRateLimiter runs on fuel of one burst, and is proved to end within it.
-- Termination: engine/source/common/termination_predicate_impl.{h,cc}.
-- Sequencer: engine/source/common/sequencer_impl.{h,cc}. One call reads one time, as with the
--   cached time source that the engine gives it; a callback that the target makes at once reads a
--   later one. The loop of run() runs on fuel, and fuel beyond the number of acquisitions that are
--   due is proved to be enough.
-- WebSocket: engine/source/common/websocket.{h,cc}, frames and their incremental decoder. The
--   random key of a masked frame is an argument. The loop of Decoder::feed() runs on the length of
--   the data as fuel: a frame takes at least two bytes.
-- WebSocketStream: engine/source/client/websocket_stream_client_impl.{h,cc}. Streams are numbers in
--   a list of all that were opened, so that a decoder that waits for its deletion can still be
--   called. What the connection pool does at once, the upgrade's keys and the texts of the headers
--   are parameters. A callback of the library is a step of a run, and dispatcher_.run() is a
--   function whose effect is such a run. Frames are those of WebSocket.
-- Http: engine/source/client/benchmark_client_impl.{h,cc} and stream_decoder.{h,cc}. The decoders
--   are a list by number. The pool, the request generator, response header plugins and what a
--   latency is are parameters. The loop of finish() takes the runs of the dispatcher as a list.
-- Statistic: the base, the simple, the streaming and the in-memory class of
--   engine/source/common/statistic_impl.{h,cc}. The operations on doubles, NaN among them, and
--   protobuf's writing and reading of a message are parameters.
-- RequestSource: engine/source/common/request_source_impl.{h,cc} and
--   request_stream_grpc_client_impl.{h,cc}. The maps of headers are a parameter, with
--   the name that a map keeps a header under; the service sends
--   no more responses than it was asked for, as its protocol says, where a theorem says so.
-- Worker: engine/source/common/worker_impl.{h,cc}. The owner's calls and the steps of the worker's
--   own thread interleave in any order; a call that has to wait is no step until it returns.
--   Worker/Snapshot: the counters that ClientWorkerImpl::work() of
--   engine/source/client/client_worker_impl.cc keeps.
-- Tcp: engine/source/client/tcp_benchmark_client_impl.{h,cc}. Links live in a list of all that
--   were made, so that the pointers of a slot are numbers and an event may come for a link that no
--   slot holds any more. What the network library does at once is a parameter (Network): whether
--   there is a connection, what connect() raises before it returns, whether a close that flushes
--   raises its event at once, and whether a write goes above the high watermark. Everything that
--   happens later is a step of a history; dispatcher_.run() is a history too. The loop of onData()
--   runs on the number of bytes received as fuel: each round takes a message, which is not empty.
-- Udp: engine/source/client/udp_benchmark_client_impl.{h,cc}. The ordered map is a list by
--   ascending key; the formatting and reading of hexadecimal numbers (absl) are a parameter.
-- BackendName: sanitizeBackendName() of engine/source/client/backend_name.cc. absl::ascii_tolower is
--   a parameter.
-- Prelude: names of the libraries, Boolean tests, lists and what updating them keeps, words, bits
--   of bytes, hexadecimal numbers.
--
-- A completion callback is a number. A client lists the calls that it made of them and those that it
-- posted.
--
-- Numbers: a uint64_t or uint32_t wraps around (add64, sub64, add32, sub32); an int64_t is its bit
-- pattern. A point in time and a duration is a natural number of nanoseconds, and monotonic time
-- does not go back, where a theorem says so. Outside Statistic, a statistic is the list of what was
-- recorded. A NighthawkException is `throws`, a failed assertion `aborts`; in Worker both are `none`.
--
-- Not modelled: the streaming gRPC client, the HTTP/1 pool and the tracing of the HTTP client, the
-- statistics over HdrHistogram and libcircllhist, option parsing, the process and the kinds of
-- workers, the gRPC service, output formatting, statistics sinks, the test server's filters, and
-- the Go programs of the repository; log lines, waitForCompletion() and completionsPerSecond() of
-- the sequencer, the handshake keys of websocket.cc, and the Zipf sampler of the rate limiters.
pub mod BackendName
pub mod Http
pub mod Prelude
pub mod RateLimiter
pub mod RequestSource
pub mod Sequencer
pub mod Statistic
pub mod Tcp
pub mod Termination
pub mod Udp
pub mod WebSocket
pub mod WebSocketStream
pub mod Worker
