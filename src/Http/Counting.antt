-- ===== src/Http/Counting.antt =====
-- What a BenchmarkClientHttpImpl counts: the callbacks of its decoders
-- (engine/source/client/benchmark_client_impl.cc).
use sortie.Prelude.Words.{add64}
use sortie.Prelude.{
  ℕ, ◌-◌, Bool, true, false, not, ◌&&◌, ◌||◌, Option, none, some, List, [], ◌∷◌, ltb, leb, ◌==◌,
  if◌then◌else◌,
}
use sortie.Http.{
  remote_reset_no_error, http1_premature_upstream_half_close, overload_manager, protocol_error,
  connect_error, reset_overflow, connection_termination, connection_timeout, remote_failure,
  local_failure, remote_refused_stream_reset, remote_reset, local_refused_stream_reset, local_reset,
  overflow, local_connection_failure, remote_connection_failure, timed_out, before_headers,
  incomplete_body, PoolFailureReason, StreamResetReason, StreamResetPhase, Headers, Counters,
  Statistics, Client, Plugin, Surroundings,
}

-- The enumerator's place.
abbrev pub reason_code : StreamResetReason → ℕ
reason_code local_reset = 0
reason_code local_refused_stream_reset = 1
reason_code remote_reset = 2
reason_code remote_refused_stream_reset = 3
reason_code local_failure = 4
reason_code remote_failure = 5
reason_code connection_timeout = 6
reason_code connection_termination = 7
reason_code reset_overflow = 8
reason_code connect_error = 9
reason_code protocol_error = 10
reason_code overload_manager = 11
reason_code http1_premature_upstream_half_close = 12
reason_code remote_reset_no_error = 13

abbrev pub same_reason : StreamResetReason → StreamResetReason → Bool
same_reason a b = reason_code a == reason_code b

abbrev pub same_status : Option ℕ → Option ℕ → Bool
same_status none none = true
same_status (some a) (some b) = a == b
same_status _ _ = false

-- Finds a counter, or makes it, and increments it.
unfoldable pub increment : {K : Type 0} → (K → K → Bool) → K → List (K × ℕ) → List (K × ℕ)
increment same key [] = (key, 1) ∷ []
increment same key ((other, count) ∷ rest) =
    let later = increment same key rest in
    if same key other then (other, add64 count 1) ∷ rest else (other, count) ∷ later

unfoldable pub on_request_done : Client → Client
on_request_done c =
    let outstanding =
      if ltb 0 c.requests_outstanding then c.requests_outstanding - 1 else c.requests_outstanding in
    record c {
      requests_outstanding = outstanding;
      exits = c.exits || (c.waiting_in_finish && outstanding == 0);
    }

unfoldable pub abandon_outstanding_work : Client → Client
abandon_outstanding_work c = record c {
  abandon_outstanding = true;
  exits = c.exits || c.waiting_in_finish;
}

unfoldable pub on_stream_reset : StreamResetPhase → StreamResetReason → Client → Client
unfolding increment
on_stream_reset phase reason c =
    let n = c.counters in
    record c {
      counters = elim phase [
        | before_headers ↦ record n {
          stream_resets_before_headers = add64 n.stream_resets_before_headers 1;
        }
        | incomplete_body ↦ record n {
          stream_resets_incomplete_body = add64 n.stream_resets_incomplete_body 1;
        }
      ];
      stream_reset_reason_counters = increment same_reason reason c.stream_reset_reason_counters;
    }

abbrev pub is_ok : Option ℕ → Bool
is_ok none = false
is_ok (some status) = status == 0

-- trackGrpcStatus(), which returns is_ok of the status.
unfoldable pub track_grpc_status : Option ℕ → Client → Client
unfolding increment
track_grpc_status status c =
    let n = c.counters in
    record c {
      grpc_status_counters = increment same_status status c.grpc_status_counters;
      counters = if is_ok status then n else record n { grpc_error = add64 n.grpc_error 1 };
    }

abbrev pub within : ℕ → ℕ → ℕ → Bool
within above last status = ltb above status && leb status last

-- The counter of a status's class; in gRPC mode a 2xx counts when the call succeeded.
unfoldable pub count_status : ℕ → Bool → Counters → Counters
count_status status counts_2xx n =
    if within 199 299 status
    then (if counts_2xx then record n { http_2xx = add64 n.http_2xx 1 } else n)
    else if within 99 199 status
    then record n { http_1xx = add64 n.http_1xx 1 }
    else if within 299 399 status
    then record n { http_3xx = add64 n.http_3xx 1 }
    else if within 399 499 status
    then record n { http_4xx = add64 n.http_4xx 1 }
    else if within 499 599 status
    then record n { http_5xx = add64 n.http_5xx 1 }
    else record n { http_xxx = add64 n.http_xxx 1 }

-- The part of onComplete() that scores a response with success, or a reset without.
unfoldable pub score : Bool → ℕ → Option ℕ → Client → Client
unfolding track_grpc_status count_status
score true status grpc_status c =
    let tracked = if c.grpc then track_grpc_status grpc_status c else c in
    record tracked {
      counters = count_status status (not c.grpc || is_ok grpc_status) tracked.counters;
    }
score false status grpc_status c =
    let n = c.counters in
    let reset = record c { counters = record n { stream_resets = add64 n.stream_resets 1 } } in
    if c.grpc then track_grpc_status grpc_status reset else reset

unfoldable pub headers_failures : Option Headers → List Plugin → Counters → Counters
headers_failures headers [] n = n
headers_failures headers (plugin ∷ plugins) n = headers_failures headers plugins (
    if plugin.takes_headers headers then n else record n {
      user_defined_plugin_handle_headers_failure =
          add64 n.user_defined_plugin_handle_headers_failure 1;
    })

unfoldable pub data_failures : List ℕ → List Plugin → Counters → Counters
data_failures bytes [] n = n
data_failures bytes (plugin ∷ plugins) n = data_failures bytes plugins (
    if plugin.takes_data bytes then n else record n {
      user_defined_plugin_handle_data_failure = add64 n.user_defined_plugin_handle_data_failure 1;
    })

abbrev pub status_of : Option Headers → ℕ
status_of none = 0
status_of (some headers) = headers.status

unfoldable pub on_complete : Surroundings → Bool → Option Headers → Option ℕ → Client → Client
unfolding on_request_done score headers_failures
on_complete around success headers grpc_status c =
    let scored =
      score success (status_of headers) grpc_status
        (on_request_done (record c { requests_completed = add64 c.requests_completed 1 })) in
    record scored { counters = headers_failures headers around.plugins scored.counters }

unfoldable pub handle_response_data : Surroundings → List ℕ → Client → Client
unfolding data_failures
handle_response_data around bytes c = record c {
  counters = data_failures bytes around.plugins c.counters;
}

unfoldable pub count_pool_failure : PoolFailureReason → Counters → Counters
count_pool_failure overflow n = record n { pool_overflow = add64 n.pool_overflow 1 }
count_pool_failure local_connection_failure n = record n {
  pool_connection_failure = add64 n.pool_connection_failure 1;
  pool_failure_local_connection_failure = add64 n.pool_failure_local_connection_failure 1;
}
count_pool_failure remote_connection_failure n = record n {
  pool_connection_failure = add64 n.pool_connection_failure 1;
  pool_failure_remote_connection_failure = add64 n.pool_failure_remote_connection_failure 1;
}
count_pool_failure timed_out n = record n { pool_failure_timeout = add64 n.pool_failure_timeout 1 }

unfoldable pub on_pool_failure : PoolFailureReason → Client → Client
unfolding count_pool_failure on_request_done
on_pool_failure reason c =
    on_request_done (record c { counters = count_pool_failure reason c.counters })

unfoldable pub record_latency : ℕ → ℕ → Statistics → Statistics
record_latency code latency s =
    if within 99 199 code
    then record s { latency_1xx_statistic = latency ∷ s.latency_1xx_statistic }
    else if within 199 299 code
    then record s { latency_2xx_statistic = latency ∷ s.latency_2xx_statistic }
    else if within 299 399 code
    then record s { latency_3xx_statistic = latency ∷ s.latency_3xx_statistic }
    else if within 399 499 code
    then record s { latency_4xx_statistic = latency ∷ s.latency_4xx_statistic }
    else if within 499 599 code
    then record s { latency_5xx_statistic = latency ∷ s.latency_5xx_statistic }
    else record s { latency_xxx_statistic = latency ∷ s.latency_xxx_statistic }

unfoldable pub export_latency : ℕ → ℕ → Option ℕ → Client → Client
unfolding record_latency
export_latency code latency grpc_status c =
    let s = c.statistic in
    let scored =
      if c.grpc && is_ok grpc_status
      then record s { latency_grpc_ok_statistic = latency ∷ s.latency_grpc_ok_statistic }
      else s in
    record c { statistic = record_latency code latency scored }
