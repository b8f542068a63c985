-- ===== src/WebSocketStream.antt =====
-- WebSocketStreamBenchmarkClientImpl (engine/source/client/websocket_stream_client_impl.{h,cc}):
-- a fixed number of WebSocket connections. A stream is named by its index. Times are nanoseconds.
pub mod Streams
pub mod Messages
pub mod Life
pub mod Ledger
pub mod Echo
mod Examples
use sortie.WebSocket.{Key}
use sortie.Prelude.{
  update_at, get_or, zero, suc, ℕ, ◌+◌, ◌-◌, ◌*◌, ◌/◌, ◌%◌, ◌≤◌, ◌<◌, min, max, ◌≡◌, refl, sym, ap,
  ◌∙◌, ◌≢◌, ◌↔◌, ◌⊎◌, inl, inr, Bool, true, false, not, ◌&&◌, ◌||◌, Option, none, some, List, [],
  ◌∷◌, ◌++◌, map, arith, ltb, leb, ◌==◌, ==_iff, if◌then◌else◌, Bool-cases, Option-cases, one_if,
  length, take, drop, length-append, take-append, drop-append, All, bit_and, bit_or, bit_xor,
}
use sortie.RateLimiter.{aborts, done, Outcome}

pub data StreamState : Type 0 where
  stream_opening stream_open stream_closing stream_closed : StreamState

pub data WaitingFor : Type 0 where
  awaits_nothing awaits_opens awaits_closes : WaitingFor

-- The completion callback is named by a number.
pub record InflightMessage : Type 0 where
  pub sequence : ℕ
  pub sent_at : ℕ
  pub completion_callback : ℕ

-- `encoder` and `cancellable` are whether the pointers are set.
pub record Stream : Type 0 where
  pub state : StreamState
  pub encoder : Bool
  pub cancellable : Bool
  pub inflight : List InflightMessage
  pub key : List ℕ
  pub received : List ℕ
  pub fragments : List ℕ
  pub write_blocked : Bool

pub record Counters : Type 0 where
  pub streams_opened : ℕ
  pub stream_open_failures : ℕ
  pub stream_upgrade_rejected : ℕ
  pub stream_messages_sent : ℕ
  pub stream_messages_received : ℕ
  pub stream_deferred : ℕ
  pub stream_unavailable : ℕ
  pub stream_resets : ℕ
  pub stream_early_close : ℕ
  pub stream_unexpected_message : ℕ
  pub stream_protocol_errors : ℕ
  pub stream_inflight_lost : ℕ
  pub stream_drain_incomplete : ℕ
  pub stream_write_blocked : ℕ

-- What onStreamReady() puts on top of the generated request's headers.
pub data Setting : Type 0 where
  method_get connection_upgrade upgrade_websocket version_13 : Setting
  websocket_key : List ℕ → Setting

-- `completed` holds the callbacks that were called and the success they were called with, newest
-- first, and `posted` those that the dispatcher will call; `exits` is whether dispatcher_.exit()
-- was called. `written` holds what was encoded on a stream, `handshakes` the upgrades that were
-- asked for, and `cancelled` the streams whose opening was cancelled, newest first. The timer is
-- armed for a number of milliseconds.
pub record Client : Type 0 where
  pub message_latency_statistic : List ℕ
  pub stream_count : ℕ
  pub max_inflight_per_stream : ℕ
  pub drain_duration : ℕ
  pub open_timeout : ℕ
  pub binary : Bool
  pub counters : Counters
  pub streams : List Stream
  pub message : List ℕ
  pub next_sequence : ℕ
  pub next_stream : ℕ
  pub pending_opens : ℕ
  pub measure_latencies : Bool
  pub waiting_for : WaitingFor
  pub wait_timer : Option ℕ
  pub finished : Bool
  pub completed : List (ℕ × Bool)
  pub posted : List (ℕ × Bool)
  pub exits : Bool
  pub written : List (ℕ × List ℕ)
  pub handshakes : List (ℕ × List Setting)
  pub cancelled : List ℕ

-- The callback that newStream() makes before it returns.
pub data PoolEvent : Type 0 where
  pool_ready pool_failure : PoolEvent

-- What the program asks of the network library, and of a random source: whether the cluster has
-- a pool, the key of an upgrade, the callback of newStream(), whether encodeHeaders() succeeds,
-- the key of a frame's mask, and whether encodeData() goes above the high watermark.
pub record Network : Type 0 where
  pub has_pool : Client → ℕ → Bool
  pub new_key : Client → ℕ → List ℕ
  pub pool_raises : Client → ℕ → Option PoolEvent
  pub encodes_headers : Client → ℕ → Bool
  pub mask : Client → ℕ → Key
  pub write_blocks : Client → ℕ → Bool

-- The header values and string functions of the libraries that check an upgrade, and
-- WebSocket::acceptKey(), which is SHA-1 and base64.
pub record Upgrade : Type 0 where
  pub equals_ignore_case : List ℕ → List ℕ → Bool
  pub strip_ascii_whitespace : List ℕ → List ℕ
  pub split_commas : List ℕ → List (List ℕ)
  pub upgrade_value : List ℕ
  pub websocket_value : List ℕ
  pub accept_key : List ℕ → List ℕ

-- What is read where there is no stream.
abbrev pub no_stream : Stream
no_stream = record {
  state = stream_closed;
  encoder = false;
  cancellable = false;
  inflight = [];
  key = [];
  received = [];
  fragments = [];
  write_blocked = false;
}

abbrev pub new_streams : ℕ → List Stream
new_streams zero = []
new_streams (suc n) = record no_stream { state = stream_opening } ∷ new_streams n

abbrev pub no_counts : Counters
no_counts = record {
  streams_opened = 0;
  stream_open_failures = 0;
  stream_upgrade_rejected = 0;
  stream_messages_sent = 0;
  stream_messages_received = 0;
  stream_deferred = 0;
  stream_unavailable = 0;
  stream_resets = 0;
  stream_early_close = 0;
  stream_unexpected_message = 0;
  stream_protocol_errors = 0;
  stream_inflight_lost = 0;
  stream_drain_incomplete = 0;
  stream_write_blocked = 0;
}

-- The constructor; it asserts that both numbers are positive.
unfoldable pub websocket_stream_client : ℕ → ℕ → ℕ → ℕ → Bool → Outcome Client
websocket_stream_client streams max_inflight drain_duration open_timeout binary =
    if ltb 0 streams && ltb 0 max_inflight
    then done (record {
      message_latency_statistic = [];
      stream_count = streams;
      max_inflight_per_stream = max_inflight;
      drain_duration = drain_duration;
      open_timeout = open_timeout;
      binary = binary;
      counters = no_counts;
      streams = new_streams streams;
      message = [];
      next_sequence = 0;
      next_stream = 0;
      pending_opens = 0;
      measure_latencies = false;
      waiting_for = awaits_nothing;
      wait_timer = none;
      finished = false;
      completed = [];
      posted = [];
      exits = false;
      written = [];
      handshakes = [];
      cancelled = [];
    })
    else aborts

abbrev pub stream_at : Client → ℕ → Stream
stream_at c i = get_or no_stream i c.streams

abbrev pub set_stream : ℕ → Stream → Client → Client
set_stream i stream c = record c { streams = update_at i (λ old. stream) c.streams }
