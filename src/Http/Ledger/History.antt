-- ===== src/Http/Ledger/History.antt =====
-- What happens to a BenchmarkClientHttpImpl and its decoders, as a step relation, and the books
-- after any number of steps (engine/source/client/{benchmark_client_impl,stream_decoder}.cc).
use sortie.Http.Counting.{abandon_outstanding_work}
use sortie.Http.Ledger.Decoding.{
  on_reset_stream-Books, decode_trailers-Books, decode_data-Books, decode_headers-Books,
  decoder_pool_failure-Books,
}
use sortie.Http.Ledger.Starting.{try_start_request-Books, on_pool_ready-Books}
use sortie.Http.Decoding.{
  on_reset_stream, decode_trailers, decode_data, decode_headers, decoder_pool_failure,
  on_pool_ready,
}
use sortie.Prelude.Words.{u64_mod}
use sortie.Prelude.{ℕ, ◌+◌, ◌<◌, ◌≡◌, refl, Bool, true, ◌||◌, Option, List, arith, one_if}
use sortie.Http.{
  PoolFailureReason, StreamResetReason, Headers, Client, Surroundings, decoder_at, configure,
  Limits, benchmark_client, Protocol,
}
use sortie.Http.Life.{Network, try_start_request, finish_times_out}
use sortie.Http.Ledger.{outstanding, Books, counted-Books, same-Books}

-- The callbacks of decoders and the calls of the worker; a step carries the number of requests
-- that it makes. A decoder gets no callback once it has scheduled its deletion.
pub data Step (around : Surroundings) (net : Network) : ℕ → Client → Client → Type 0 where
  connection_ready :
      (now i : ℕ) (c : Client)
      → outstanding (decoder_at c i) ≡ 1
      → Step around net 0 c (on_pool_ready now i c)
  connection_failed :
      (i : ℕ) (reason : PoolFailureReason) (c : Client)
      → outstanding (decoder_at c i) ≡ 1
      → Step around net 0 c (decoder_pool_failure i reason c)
  headers_came :
      (now i : ℕ) (headers : Headers) (end_stream : Bool) (c : Client)
      → outstanding (decoder_at c i) ≡ 1
      → Step around net 0 c (decode_headers around now i headers end_stream c)
  data_came :
      (now i : ℕ) (bytes : List ℕ) (end_stream : Bool) (c : Client)
      → outstanding (decoder_at c i) ≡ 1
      → Step around net 0 c (decode_data around now i bytes end_stream c)
  trailers_came :
      (now i : ℕ) (status : Option ℕ) (c : Client)
      → outstanding (decoder_at c i) ≡ 1
      → Step around net 0 c (decode_trailers around now i status c)
  stream_was_reset :
      (now i : ℕ) (reason : StreamResetReason) (c : Client)
      → outstanding (decoder_at c i) ≡ 1
      → Step around net 0 c (on_reset_stream around now i reason c)
  request_came :
      (now callback : ℕ) (c : Client)
      → Step around net
          (one_if (try_start_request around net now callback c).1)
          c
          (try_start_request around net now callback c).0
  finish_timer_fired : (c : Client) → Step around net 0 c (finish_times_out c)
  work_abandoned : (c : Client) → Step around net 0 c (abandon_outstanding_work c)
  latencies_measured :
      (measure : Bool) (c : Client) → Step around net 0 c (record c { measure_latencies = measure })

-- Any number of steps, with the requests that were accepted in all.
pub data Run (around : Surroundings) (net : Network) : ℕ → Client → Client → Type 0 where
  no_step : (c : Client) → Run around net 0 c c
  one_more :
      {m n : ℕ} {c d e : Client}
      → Run around net m c d
      → Step around net n d e
      → Run around net (m + n) c e

module _ (around : Surroundings) (net : Network) (requests : ℕ) where
  Step-Books :
      {n : ℕ} {c d : Client}
      → Step around net n c d
      → requests + 1 < u64_mod
      → Books requests c
      → Books (requests + n) d
  unfolding finish_times_out abandon_outstanding_work
  Step-Books (connection_ready now i c live) few v =
      same-Books requests (on_pool_ready now i c) (on_pool_ready-Books requests now i c v)
  Step-Books (connection_failed i reason c live) few v =
      same-Books requests (decoder_pool_failure i reason c)
        (decoder_pool_failure-Books requests i reason c live v)
  Step-Books (headers_came now i headers end_stream c live) few v =
      same-Books requests (decode_headers around now i headers end_stream c)
        (decode_headers-Books around requests now i headers end_stream c live v)
  Step-Books (data_came now i bytes end_stream c live) few v =
      same-Books requests (decode_data around now i bytes end_stream c)
        (decode_data-Books around requests now i bytes end_stream c live v)
  Step-Books (trailers_came now i status c live) few v =
      same-Books requests (decode_trailers around now i status c)
        (decode_trailers-Books around requests now i status c live v)
  Step-Books (stream_was_reset now i reason c live) few v =
      same-Books requests (on_reset_stream around now i reason c)
        (on_reset_stream-Books around requests now i reason c live v)
  Step-Books (request_came now callback c) few v =
      try_start_request-Books around net requests now callback c few v
  Step-Books (finish_timer_fired c) few v =
      same-Books requests (record c { finish_timed_out = true; exits = true }) v
  Step-Books (work_abandoned c) few v =
      same-Books requests
        (record c { abandon_outstanding = true; exits = c.exits || c.waiting_in_finish }) v
  Step-Books (latencies_measured measure c) few v =
      same-Books requests (record c { measure_latencies = measure }) v

module _ (around : Surroundings) (net : Network) where
  pub Run-Books :
      (requests : ℕ) {n : ℕ} {c d : Client}
      → Run around net n c d
      → requests + n + 1 < u64_mod
      → Books requests c
      → Books (requests + n) d
  Run-Books requests (no_step c) few v = same-Books requests c v
  Run-Books requests (one_more {m} {n} {c} {d} {e} before step) few v =
      counted-Books (requests + m + n) (requests + (m + n)) e (omega arith) (
        Step-Books around net (requests + m) step (omega (arith, few))
          (Run-Books requests before (omega (arith, few)) v))

pub new_client-Books :
    (protocol : Protocol) (backpressure latency_header : Bool) (limits : Limits)
    → Books 0 (configure limits (benchmark_client protocol backpressure latency_header))
unfolding configure benchmark_client
new_client-Books protocol backpressure latency_header limits = record {
  there = refl;
  calls = refl;
  owed = λ k. refl;
  waiting = refl;
  initiated_all = refl;
  ends = refl;
  scored = λ e. refl;
  tracked = λ e. refl;
  phased = refl;
  reasoned = refl;
  sided = refl;
  none_lost = refl;
  word = omega arith;
}
