-- ===== src/Http/Ledger/Decoding.antt =====
-- The books and the callbacks of a decoder (engine/source/client/stream_decoder.cc).
use sortie.Http.Ledger.Ending.{
  end_one, delete, fewer, handle_response_data-Books, delete_one, decoder_complete-Books,
  touched-Books,
}
use sortie.Prelude.Words.{add64, u64_mod, u32_mod}
use sortie.Http.Ledger.Scoring.{tally-increment}
use sortie.Http.Decoding.{
  decoder_complete, timing_value, response_flag, origin_delta, has_headers, or_else,
  decoder_pool_failure, on_reset_stream, decode_trailers, decode_data, decode_headers,
}
use sortie.Prelude.{
  get_or, ℕ, ◌+◌, ◌-◌, ◌%◌, ◌<◌, ◌≡◌, refl, ◌∙◌, Bool, true, false, ◌&&◌, Option, some, List, ◌∷◌,
  arith, ltb, if◌then◌else◌, length,
}
use sortie.Prelude.Updates.{length-update_at, amend, get_or-amend}
use sortie.Http.{
  timed_out, remote_connection_failure, local_connection_failure, overflow,
  upstream_connection_failure, before_headers, incomplete_body, PoolFailureReason,
  StreamResetReason, StreamResetPhase, Headers, Counters, Decoder, Client, Surroundings, no_decoder,
  decoder_at, set_decoder,
}
use sortie.Http.Counting.{
  same_reason, count_pool_failure, on_pool_failure, on_request_done, on_stream_reset,
}
use sortie.Http.Ledger.{
  if-BooksWith, outstanding, answers, phases, failures, sides, BooksWith, Books,
}

-- An amendment leaves a decoder outstanding.
still_outstanding :
    (f : Decoder → Decoder) (i : ℕ) (decoders : List Decoder)
    → ((d : Decoder) → outstanding (f d) ≡ outstanding d)
    → outstanding (get_or no_decoder i decoders) ≡ 1
    → outstanding (get_or no_decoder i (amend no_decoder i f decoders)) ≡ 1
still_outstanding f i decoders e live = get_or-amend no_decoder outstanding f i decoders e ∙ live

module _ (around : Surroundings) (requests : ℕ) where
  pub decode_headers-Books :
      (now i : ℕ) (headers : Headers) (end_stream : Bool) (c : Client)
      → outstanding (decoder_at c i) ≡ 1
      → Books requests c
      → Books requests (decode_headers around now i headers end_stream c)
  unfolding decode_headers
  decode_headers-Books now i headers end_stream c live v =
      let f : Decoder → Decoder = λ d. record d {
        complete = end_stream;
        response_headers = some headers;
        response_code = some (headers.status % u32_mod);
        decoder_status = headers.grpc_status;
      } in
      let s = c.statistic in
      let origin =
        origin_delta (around.atoi_i64 (timing_value headers.timing)) s.origin_latency_statistic in
      let decoded : Client = record (set_decoder i (f (decoder_at c i)) c) {
        statistic = record s {
          response_header_size_statistic = headers.byte_size ∷ s.response_header_size_statistic;
          origin_latency_statistic =
              if c.latency_response_header && ltb 0 (length headers.timing)
              then origin
              else s.origin_latency_statistic;
        };
      } in
      let kept : Books requests decoded =
        touched-Books requests 0 i (f (decoder_at c i)) c refl (λ k. refl) v in
      if-BooksWith requests 0 end_stream (decoder_complete around now i true decoded) decoded
        (decoder_complete-Books around requests now i true decoded
          (still_outstanding f i c.decoders (λ d. refl) live) kept)
        kept

  pub decode_data-Books :
      (now i : ℕ) (bytes : List ℕ) (end_stream : Bool) (c : Client)
      → outstanding (decoder_at c i) ≡ 1
      → Books requests c
      → Books requests (decode_data around now i bytes end_stream c)
  unfolding decode_data
  decode_data-Books now i bytes end_stream c live v =
      let f : Decoder → Decoder =
        λ d. record d { complete = end_stream; bytes_sent = add64 d.bytes_sent (length bytes) } in
      let decoded : Client = set_decoder i (f (decoder_at c i)) c in
      let kept : Books requests decoded =
        touched-Books requests 0 i (f (decoder_at c i)) c refl (λ k. refl) v in
      let ended = decoder_complete around now i true decoded in
      handle_response_data-Books requests 0 around bytes (if end_stream then ended else decoded) (
        if-BooksWith requests 0 end_stream ended decoded
          (decoder_complete-Books around requests now i true decoded
            (still_outstanding f i c.decoders (λ d. refl) live) kept)
          kept)

  pub decode_trailers-Books :
      (now i : ℕ) (status : Option ℕ) (c : Client)
      → outstanding (decoder_at c i) ≡ 1
      → Books requests c
      → Books requests (decode_trailers around now i status c)
  unfolding decode_trailers
  decode_trailers-Books now i status c live v =
      let f : Decoder → Decoder = λ d. record d {
        complete = true;
        decoder_status = or_else around status d.decoder_status;
      } in
      decoder_complete-Books around requests now i true (set_decoder i (f (decoder_at c i)) c)
        (still_outstanding f i c.decoders (λ d. refl) live)
        (touched-Books requests 0 i (f (decoder_at c i)) c refl (λ k. refl) v)

  -- A reset that is classified is due to be counted.
  on_stream_reset-BooksWith :
      (phase : StreamResetPhase) (reason : StreamResetReason) (c : Client)
      → Books requests c
      → BooksWith requests 1 (on_stream_reset phase reason c)
  unfolding on_stream_reset
  on_stream_reset-BooksWith before_headers reason c v =
      let grown = tally-increment same_reason reason c.stream_reset_reason_counters in
      record {
        there = v.there;
        calls = v.calls;
        owed = v.owed;
        waiting = v.waiting;
        initiated_all = v.initiated_all;
        ends = v.ends;
        scored = v.scored;
        tracked = v.tracked;
        phased = omega (arith, v.phased);
        reasoned = omega (arith, v.reasoned, grown);
        sided = v.sided;
        none_lost = v.none_lost;
        word = v.word;
      }
  on_stream_reset-BooksWith incomplete_body reason c v =
      let grown = tally-increment same_reason reason c.stream_reset_reason_counters in
      record {
        there = v.there;
        calls = v.calls;
        owed = v.owed;
        waiting = v.waiting;
        initiated_all = v.initiated_all;
        ends = v.ends;
        scored = v.scored;
        tracked = v.tracked;
        phased = omega (arith, v.phased);
        reasoned = omega (arith, v.reasoned, grown);
        sided = v.sided;
        none_lost = v.none_lost;
        word = v.word;
      }

  pub on_reset_stream-Books :
      (now i : ℕ) (reason : StreamResetReason) (c : Client)
      → outstanding (decoder_at c i) ≡ 1
      → Books requests c
      → Books requests (on_reset_stream around now i reason c)
  unfolding on_reset_stream on_stream_reset
  on_reset_stream-Books now i reason c live v =
      let phase =
        if has_headers (decoder_at c i).response_headers then incomplete_body else before_headers in
      let counted = on_stream_reset phase reason c in
      let f : Decoder → Decoder =
        λ d. record d { response_flags = response_flag reason ∷ d.response_flags } in
      decoder_complete-Books around requests now i false
        (set_decoder i (f (decoder_at counted i)) counted)
        (still_outstanding f i c.decoders (λ d. refl) live)
        (touched-Books requests 1 i (f (decoder_at counted i)) counted refl (λ k. refl)
          (on_stream_reset-BooksWith phase reason c v))

-- What a pool failure counts.
failed-Counted :
    (reason : PoolFailureReason) (n : Counters)
    → let m = count_pool_failure reason n in
      (failures m % u64_mod ≡ (failures n + 1) % u64_mod)
      × ((sides m + n.pool_connection_failure) % u64_mod
          ≡ (sides n + m.pool_connection_failure) % u64_mod)
      × (m.stream_resets ≡ n.stream_resets)
      × (answers m ≡ answers n)
      × (phases m ≡ phases n)
      × (m.http_inflight_lost ≡ n.http_inflight_lost)
unfolding count_pool_failure
failed-Counted overflow n = (omega arith, omega arith, refl, refl, refl, refl)
failed-Counted local_connection_failure n = (omega arith, omega arith, refl, refl, refl, refl)
failed-Counted remote_connection_failure n = (omega arith, omega arith, refl, refl, refl, refl)
failed-Counted timed_out n = (omega arith, omega arith, refl, refl, refl, refl)

pub decoder_pool_failure-Books :
    (requests i : ℕ) (reason : PoolFailureReason) (c : Client)
    → outstanding (decoder_at c i) ≡ 1
    → Books requests c
    → Books requests (decoder_pool_failure i reason c)
unfolding decoder_pool_failure on_pool_failure on_request_done
decoder_pool_failure-Books requests i reason c live v =
    let f : Decoder → Decoder =
      λ d. record d { response_flags = upstream_connection_failure ∷ d.response_flags } in
    let flagged = amend no_decoder i f c.decoders in
    let kept = touched-Books requests 0 i (f (decoder_at c i)) c refl (λ k. refl) v in
    let one_less = delete_one i flagged (still_outstanding f i c.decoders (λ d. refl) live) in
    let some_there : 0 < c.requests_outstanding = omega (arith, kept.waiting, one_less) in
    let less : fewer c.requests_outstanding ≡ c.requests_outstanding - 1 =
      ground (arith, some_there) in
    let n = failed-Counted reason c.counters in
    record {
      there = length-update_at i (delete (get_or no_decoder i flagged)) flagged ∙ kept.there;
      calls = omega (arith, kept.calls, one_less);
      owed = λ k. omega (
        arith,
        kept.owed k,
        end_one k i flagged (still_outstanding f i c.decoders (λ d. refl) live),
      );
      waiting = omega (arith, less, kept.waiting, one_less);
      initiated_all = v.initiated_all;
      ends = omega (arith, kept.ends, one_less, n.0);
      scored = λ e. omega (arith, v.scored e, n);
      tracked = v.tracked;
      phased = omega (arith, v.phased, n);
      reasoned = omega (arith, v.reasoned, n);
      sided = omega (arith, v.sided, n);
      none_lost = omega (arith, v.none_lost, n);
      word = v.word;
    }
