-- ===== src/Http/Decoding.antt =====
-- StreamDecoder (engine/source/client/stream_decoder.cc): the callbacks of one request's stream.
-- The tracing span is left out.
use sortie.Prelude.Words.{add64, i64_mod, u32_mod}
use sortie.Prelude.{
  ℕ, ◌-◌, ◌%◌, Bool, true, false, ◌&&◌, Option, none, some, List, [], ◌∷◌, ltb, if◌then◌else◌,
  length,
}
use sortie.Http.{
  local_reset, local_refused_stream_reset, remote_reset, remote_refused_stream_reset, local_failure,
  remote_failure, connection_timeout, connection_termination, reset_overflow, connect_error,
  protocol_error, overload_manager, http1_premature_upstream_half_close, remote_reset_no_error,
  flag_overload, upstream_protocol_error, upstream_remote_reset, upstream_overflow,
  flag_local_reset, upstream_connection_termination, upstream_connection_failure, before_headers,
  incomplete_body, PoolFailureReason, StreamResetReason, ResponseFlag, Headers, Decoder, Client,
  Surroundings, decoder_at, set_decoder,
}
use sortie.Http.Counting.{
  on_complete, on_pool_failure, on_stream_reset, export_latency, handle_response_data,
}

-- streamResetReasonToResponseFlag().
unfoldable pub response_flag : StreamResetReason → ResponseFlag
response_flag local_failure = upstream_connection_failure
response_flag remote_failure = upstream_connection_failure
response_flag connection_timeout = upstream_connection_failure
response_flag connection_termination = upstream_connection_termination
response_flag local_reset = flag_local_reset
response_flag local_refused_stream_reset = flag_local_reset
response_flag http1_premature_upstream_half_close = flag_local_reset
response_flag reset_overflow = upstream_overflow
response_flag connect_error = upstream_remote_reset
response_flag remote_reset = upstream_remote_reset
response_flag remote_refused_stream_reset = upstream_remote_reset
response_flag remote_reset_no_error = upstream_remote_reset
response_flag protocol_error = upstream_protocol_error
response_flag overload_manager = flag_overload

-- "multiple values".
abbrev pub multiple_values : List ℕ
multiple_values =
    109 ∷ 117 ∷ 108 ∷ 116 ∷ 105 ∷ 112 ∷ 108 ∷ 101 ∷ 32 ∷ 118 ∷ 97 ∷ 108 ∷ 117 ∷ 101 ∷ 115 ∷ []

abbrev pub timing_value : List (List ℕ) → List ℕ
timing_value (value ∷ []) = value
timing_value _ = multiple_values

-- The latency that the origin reports, when it is a number that is not negative.
abbrev pub origin_delta : Option ℕ → List ℕ → List ℕ
origin_delta none recorded = recorded
origin_delta (some delta) recorded = if ltb delta i64_mod then delta ∷ recorded else recorded

abbrev pub has_headers : Option Headers → Bool
has_headers none = false
has_headers (some headers) = true

-- What a response that succeeded records when latencies are measured.
unfoldable pub record_response : ℕ → Decoder → Client → Client
unfolding export_latency
record_response now d c =
    let s = c.statistic in
    let latency = now - d.request_start in
    let recorded = record c {
      statistic = record s { response_statistic = latency ∷ s.response_statistic };
    } in
    elim d.response_code [
      | none ↦ recorded
      | some code ↦ export_latency code latency d.decoder_status recorded
    ]

-- Calls the caller's callback, and schedules the decoder's deletion.
abbrev pub finish_decoder : ℕ → Bool → Bool → Client → Client
finish_decoder i complete success c =
    let d = decoder_at c i in
    record (set_decoder i (record d { deleted = true }) c) {
      completed = (d.caller_completion_callback, (complete, success)) ∷ c.completed;
    }

module _ (around : Surroundings) where
  -- StreamDecoder::onComplete().
  unfoldable pub decoder_complete : ℕ → ℕ → Bool → Client → Client
  unfolding record_response on_complete
  decoder_complete now i success c =
      let d = decoder_at c i in
      let timed = if success && d.measures then record_response now d c else c in
      let s = timed.statistic in
      let sized = record timed {
        statistic = record s {
          response_body_size_statistic = d.bytes_sent ∷ s.response_body_size_statistic;
        };
      } in
      finish_decoder i d.complete success
        (on_complete around success d.response_headers d.decoder_status sized)

  unfoldable pub decode_headers : ℕ → ℕ → Headers → Bool → Client → Client
  unfolding decoder_complete
  decode_headers now i headers end_stream c =
      let d = record (decoder_at c i) {
        complete = end_stream;
        response_headers = some headers;
        response_code = some (headers.status % u32_mod);
        decoder_status = headers.grpc_status;
      } in
      let s = c.statistic in
      let origin =
        origin_delta (around.atoi_i64 (timing_value headers.timing)) s.origin_latency_statistic in
      let decoded = record (set_decoder i d c) {
        statistic = record s {
          response_header_size_statistic = headers.byte_size ∷ s.response_header_size_statistic;
          origin_latency_statistic =
              if c.latency_response_header && ltb 0 (length headers.timing)
              then origin
              else s.origin_latency_statistic;
        };
      } in
      if end_stream then decoder_complete now i true decoded else decoded

  unfoldable pub decode_data : ℕ → ℕ → List ℕ → Bool → Client → Client
  unfolding decoder_complete handle_response_data
  decode_data now i bytes end_stream c =
      let d = decoder_at c i in
      let decoded =
        set_decoder i
          (record d { complete = end_stream; bytes_sent = add64 d.bytes_sent (length bytes) }) c in
      handle_response_data around bytes
        (if end_stream then decoder_complete now i true decoded else decoded)

  abbrev pub or_else : Option ℕ → Option ℕ → Option ℕ
  or_else none old = old
  or_else (some status) old = some status

  -- decodeTrailers(), on the grpc-status of the trailers.
  unfoldable pub decode_trailers : ℕ → ℕ → Option ℕ → Client → Client
  unfolding decoder_complete
  decode_trailers now i trailer_status c =
      let d = decoder_at c i in
      decoder_complete now i true (
        set_decoder i
          (record d { complete = true; decoder_status = or_else trailer_status d.decoder_status })
          c)

  unfoldable pub on_reset_stream : ℕ → ℕ → StreamResetReason → Client → Client
  unfolding on_stream_reset response_flag decoder_complete
  on_reset_stream now i reason c =
      let phase =
        if has_headers (decoder_at c i).response_headers then incomplete_body else before_headers in
      let counted = on_stream_reset phase reason c in
      let d = decoder_at counted i in
      decoder_complete now i false (
        set_decoder i (record d { response_flags = response_flag reason ∷ d.response_flags })
          counted)

-- StreamDecoder::onPoolFailure().
unfoldable pub decoder_pool_failure : ℕ → PoolFailureReason → Client → Client
unfolding on_pool_failure
decoder_pool_failure i reason c =
    let failed = on_pool_failure reason c in
    let d = decoder_at failed i in
    finish_decoder i false false (
      set_decoder i (record d { response_flags = upstream_connection_failure ∷ d.response_flags })
        failed)

abbrev pub is_empty : {A : Type 0} → List A → Bool
is_empty [] = true
is_empty (x ∷ xs) = false

-- onPoolReady(): the request is encoded, its start is the time, and the wait for a connection is
-- recorded.
unfoldable pub on_pool_ready : ℕ → ℕ → Client → Client
on_pool_ready now i c =
    let d = decoder_at c i in
    let s = c.statistic in
    let sent = if is_empty d.request_body then d.request_body_size else length d.request_body in
    record (set_decoder i
      (record d { request_start = now; bytes_received = add64 d.bytes_received sent }) c) {
        statistic =
            if d.measures
            then record s { connect_statistic = (now - d.connect_start) ∷ s.connect_statistic }
            else s;
      }
