-- ===== src/Http.antt =====
-- BenchmarkClientHttpImpl (engine/source/client/benchmark_client_impl.{h,cc}) and the StreamDecoder
-- of each of its requests (engine/source/client/stream_decoder.{h,cc}). A decoder is named by its
-- place in the list of all that were made. Times are nanoseconds.
pub mod Counting
pub mod Decoding
pub mod Life
pub mod Ledger
mod Examples
use sortie.Prelude.Words.{u32_mod}
use sortie.Prelude.{
  update_at, get_or, zero, suc, ℕ, ◌+◌, ◌-◌, ◌*◌, ◌/◌, ◌%◌, ◌≤◌, ◌<◌, min, max, ◌≡◌, refl, sym, ap,
  ◌∙◌, ◌≢◌, ◌↔◌, ◌⊎◌, inl, inr, Bool, true, false, not, ◌&&◌, ◌||◌, Option, none, some, List, [],
  ◌∷◌, ◌++◌, map, arith, ltb, leb, ◌==◌, ==_iff, if◌then◌else◌, Bool-cases, Option-cases, one_if,
  length, take, drop, length-append, take-append, drop-append, All, bit_and, bit_or, bit_xor,
}

pub data Protocol : Type 0 where
  http1 http2 http3 : Protocol

pub data PoolFailureReason : Type 0 where
  overflow local_connection_failure remote_connection_failure timed_out : PoolFailureReason

pub data StreamResetReason : Type 0 where
  local_reset local_refused_stream_reset remote_reset remote_refused_stream_reset :
      StreamResetReason
  local_failure remote_failure connection_timeout connection_termination : StreamResetReason
  reset_overflow connect_error protocol_error overload_manager : StreamResetReason
  http1_premature_upstream_half_close remote_reset_no_error : StreamResetReason

pub data StreamResetPhase : Type 0 where
  before_headers incomplete_body : StreamResetPhase

-- The flags of CoreResponseFlag that are set.
pub data ResponseFlag : Type 0 where
  upstream_connection_failure upstream_connection_termination flag_local_reset : ResponseFlag
  upstream_overflow upstream_remote_reset upstream_protocol_error flag_overload : ResponseFlag

-- What is read of a response's headers: their size, the status, the grpc-status if there is one,
-- and the values of the header that carries the latency of the origin.
pub record Headers : Type 0 where
  pub byte_size : ℕ
  pub status : ℕ
  pub grpc_status : Option ℕ
  pub timing : List (List ℕ)

-- The completion callback is named by a number; `deleted` is whether the decoder has scheduled its
-- deletion.
pub record Decoder : Type 0 where
  pub caller_completion_callback : ℕ
  pub request_body : List ℕ
  pub request_body_size : ℕ
  pub measures : Bool
  pub connect_start : ℕ
  pub request_start : ℕ
  pub response_headers : Option Headers
  pub response_code : Option ℕ
  pub decoder_status : Option ℕ
  pub complete : Bool
  pub bytes_sent : ℕ
  pub bytes_received : ℕ
  pub response_flags : List ResponseFlag
  pub deleted : Bool

pub record Counters : Type 0 where
  pub stream_resets : ℕ
  pub stream_resets_before_headers : ℕ
  pub stream_resets_incomplete_body : ℕ
  pub http_1xx : ℕ
  pub http_2xx : ℕ
  pub http_3xx : ℕ
  pub http_4xx : ℕ
  pub http_5xx : ℕ
  pub http_xxx : ℕ
  pub http_inflight_lost : ℕ
  pub pool_overflow : ℕ
  pub grpc_error : ℕ
  pub pool_connection_failure : ℕ
  pub pool_failure_local_connection_failure : ℕ
  pub pool_failure_remote_connection_failure : ℕ
  pub pool_failure_timeout : ℕ
  pub user_defined_plugin_handle_headers_failure : ℕ
  pub user_defined_plugin_handle_data_failure : ℕ

-- What each statistic recorded, newest first.
pub record Statistics : Type 0 where
  pub connect_statistic : List ℕ
  pub response_statistic : List ℕ
  pub response_header_size_statistic : List ℕ
  pub response_body_size_statistic : List ℕ
  pub latency_1xx_statistic : List ℕ
  pub latency_2xx_statistic : List ℕ
  pub latency_3xx_statistic : List ℕ
  pub latency_4xx_statistic : List ℕ
  pub latency_5xx_statistic : List ℕ
  pub latency_xxx_statistic : List ℕ
  pub origin_latency_statistic : List ℕ
  pub latency_grpc_ok_statistic : List ℕ

-- The lazily created counters are maps. `completed` holds the callbacks that were called, with
-- what they were told: whether the response was complete and the success, newest first. `exits` is
-- whether dispatcher_.exit() was called; `drains` whether the pool was asked to drain. Timers are
-- armed for a number of milliseconds.
pub record Client : Type 0 where
  pub statistic : Statistics
  pub protocol : Protocol
  pub timeout : ℕ
  pub connection_limit : ℕ
  pub max_pending_requests : ℕ
  pub max_active_requests : ℕ
  pub requests_completed : ℕ
  pub requests_initiated : ℕ
  pub requests_outstanding : ℕ
  pub finish_timer : Option ℕ
  pub finished : Bool
  pub waiting_in_finish : Bool
  pub finish_timed_out : Bool
  pub abandon_outstanding : Bool
  pub finish_waited : ℕ
  pub measure_latencies : Bool
  pub counters : Counters
  pub provide_resource_backpressure : Bool
  pub latency_response_header : Bool
  pub drain_timer : Option ℕ
  pub grpc : Bool
  pub grpc_status_counters : List (Option ℕ × ℕ)
  pub stream_reset_reason_counters : List (StreamResetReason × ℕ)
  pub decoders : List Decoder
  pub completed : List (ℕ × (Bool × Bool))
  pub exits : Bool
  pub drains : Bool

-- A user defined output plugin: whether it takes the headers of a response, if there are any, and
-- the data of one.
pub record Plugin : Type 0 where
  pub takes_headers : Option Headers → Bool
  pub takes_data : List ℕ → Bool

-- The plugins, and absl::SimpleAtoi() into a uint64_t and into an int64_t, as its bit pattern.
pub record Surroundings : Type 0 where
  pub plugins : List Plugin
  pub atoi_u64 : List ℕ → Option ℕ
  pub atoi_i64 : List ℕ → Option ℕ

-- What is read where there is no decoder.
abbrev pub no_decoder : Decoder
no_decoder = record {
  caller_completion_callback = 0;
  request_body = [];
  request_body_size = 0;
  measures = false;
  connect_start = 0;
  request_start = 0;
  response_headers = none;
  response_code = none;
  decoder_status = none;
  complete = false;
  bytes_sent = 0;
  bytes_received = 0;
  response_flags = [];
  deleted = true;
}

abbrev pub no_counts : Counters
no_counts = record {
  stream_resets = 0;
  stream_resets_before_headers = 0;
  stream_resets_incomplete_body = 0;
  http_1xx = 0;
  http_2xx = 0;
  http_3xx = 0;
  http_4xx = 0;
  http_5xx = 0;
  http_xxx = 0;
  http_inflight_lost = 0;
  pool_overflow = 0;
  grpc_error = 0;
  pool_connection_failure = 0;
  pool_failure_local_connection_failure = 0;
  pool_failure_remote_connection_failure = 0;
  pool_failure_timeout = 0;
  user_defined_plugin_handle_headers_failure = 0;
  user_defined_plugin_handle_data_failure = 0;
}

abbrev pub no_values : Statistics
no_values = record {
  connect_statistic = [];
  response_statistic = [];
  response_header_size_statistic = [];
  response_body_size_statistic = [];
  latency_1xx_statistic = [];
  latency_2xx_statistic = [];
  latency_3xx_statistic = [];
  latency_4xx_statistic = [];
  latency_5xx_statistic = [];
  latency_xxx_statistic = [];
  origin_latency_statistic = [];
  latency_grpc_ok_statistic = [];
}

-- The constructor, with the defaults of the fields that setters change.
unfoldable pub benchmark_client : Protocol → Bool → Bool → Client
benchmark_client protocol backpressure latency_response_header = record {
  statistic = no_values;
  protocol = protocol;
  timeout = 30;
  connection_limit = 1;
  max_pending_requests = 1;
  max_active_requests = u32_mod - 1;
  requests_completed = 0;
  requests_initiated = 0;
  requests_outstanding = 0;
  finish_timer = none;
  finished = false;
  waiting_in_finish = false;
  finish_timed_out = false;
  abandon_outstanding = false;
  finish_waited = 0;
  measure_latencies = false;
  counters = no_counts;
  provide_resource_backpressure = backpressure;
  latency_response_header = latency_response_header;
  drain_timer = none;
  grpc = false;
  grpc_status_counters = [];
  stream_reset_reason_counters = [];
  decoders = [];
  completed = [];
  exits = false;
  drains = false;
}

-- The options that setters change before the client is used.
pub record Limits : Type 0 where
  pub connections : ℕ
  pub pending_requests : ℕ
  pub active_requests : ℕ
  pub seconds : ℕ
  pub scores_grpc : Bool

unfoldable pub configure : Limits → Client → Client
configure limits c = record c {
  connection_limit = limits.connections;
  max_pending_requests = limits.pending_requests;
  max_active_requests = limits.active_requests;
  timeout = limits.seconds;
  grpc = limits.scores_grpc;
}

abbrev pub decoder_at : Client → ℕ → Decoder
decoder_at c i = get_or no_decoder i c.decoders

abbrev pub set_decoder : ℕ → Decoder → Client → Client
set_decoder i decoder c = record c { decoders = update_at i (λ old. decoder) c.decoders }
