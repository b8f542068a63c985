-- ===== src/Http/Life.antt =====
-- The requests and the end of a BenchmarkClientHttpImpl: tryStartRequest(), finish() and
-- terminate() (engine/source/client/benchmark_client_impl.cc).
use sortie.Prelude.Words.{sub64, add64, u32_mod}
use sortie.Prelude.{
  ℕ, ◌-◌, ◌*◌, ◌/◌, ◌%◌, Bool, true, false, not, ◌&&◌, Option, none, some, List, [], ◌∷◌, ◌++◌, ltb,
  leb, if◌then◌else◌, length,
}
use sortie.Http.{
  http1, http2, http3, Protocol, PoolFailureReason, Decoder, Client, Surroundings, no_decoder,
}
use sortie.Http.Decoding.{decoder_pool_failure, on_pool_ready}

-- What a request source yields: the value of Content-Length, if there is one, and a body.
pub record Request : Type 0 where
  pub content_length : Option (List ℕ)
  pub body : List ℕ

-- The callback that newStream() makes before it returns.
pub data PoolEvent : Type 0 where
  pool_is_ready : PoolEvent
  pool_fails : PoolFailureReason → PoolEvent

-- Whether the cluster has a pool, what the request source yields, and what newStream() calls
-- before it returns.
pub record Network : Type 0 where
  pub has_pool : Client → Bool
  pub next_request : Client → Option Request
  pub pool_raises : Client → ℕ → Option PoolEvent

abbrev pub active_limit : Protocol → Client → ℕ
active_limit http1 c = c.connection_limit
active_limit http2 c = c.max_active_requests
active_limit http3 c = c.max_active_requests

-- Whether client-side queueing has no room left.
unfoldable pub is_backed_up : Client → Bool
is_backed_up c =
    c.provide_resource_backpressure
    && leb (add64 c.max_pending_requests (active_limit c.protocol c))
        (sub64 c.requests_initiated c.requests_completed)

abbrev pub or_zero : Option ℕ → ℕ
or_zero none = 0
or_zero (some n) = n

unfoldable pub content_length : Surroundings → Option (List ℕ) → ℕ
content_length around none = 0
content_length around (some value) = or_zero (around.atoi_u64 value)

unfoldable pub on_pool : ℕ → Option PoolEvent → ℕ → Client → Client
unfolding on_pool_ready decoder_pool_failure
on_pool now none i c = c
on_pool now (some pool_is_ready) i c = on_pool_ready now i c
on_pool now (some (pool_fails reason)) i c = decoder_pool_failure i reason c

module _ (around : Surroundings) (net : Network) where
  -- A request that is handed to the pool; the decoder takes its size as a uint32_t.
  unfoldable pub start : ℕ → ℕ → Request → Client → Client
  unfolding content_length on_pool
  start now callback request c =
      let i = length c.decoders in
      let decoder : Decoder = record no_decoder {
        caller_completion_callback = callback;
        request_body = request.body;
        request_body_size = content_length around request.content_length % u32_mod;
        measures = c.measure_latencies;
        connect_start = now;
        deleted = false;
      } in
      let started = record c {
        decoders = c.decoders ++ decoder ∷ [];
        requests_initiated = add64 c.requests_initiated 1;
        requests_outstanding = add64 c.requests_outstanding 1;
      } in
      on_pool now (net.pool_raises started i) i started

  unfoldable pub start_next : ℕ → ℕ → Option Request → Client → Client × Bool
  unfolding start
  start_next now callback none c = (c, false)
  start_next now callback (some request) c = (start now callback request c, true)

  unfoldable pub try_start_request : ℕ → ℕ → Client → Client × Bool
  unfolding is_backed_up start_next
  try_start_request now callback c =
      if not (net.has_pool c)
      then (c, false)
      else if is_backed_up c
      then (c, false)
      else start_next now callback (net.next_request c) c

-- The loop of finish(), over what happens in each run of the dispatcher.
unfoldable pub wait_loop : List (Client → Client) → Client → Client
wait_loop [] c = c
wait_loop (run ∷ runs) c =
    let rest = wait_loop runs (run c) in
    if ltb 0 c.requests_outstanding && (not c.finish_timed_out && not c.abandon_outstanding)
    then rest
    else c

-- The finish timer's callback.
unfoldable pub finish_times_out : Client → Client
finish_times_out c = record c { finish_timed_out = true; exits = true }

module _ (runs : List (Client → Client)) where
  -- The wait of finish(), from `now` to `later`; timeout_ counts seconds.
  unfoldable pub wait : ℕ → ℕ → Client → Client
  unfolding wait_loop
  wait now later c =
      record (wait_loop runs
        (record c { finish_timer = some (c.timeout * 1_000); waiting_in_finish = true })) {
          waiting_in_finish = false;
          finish_timer = none;
          finish_waited = (later - now) / 1_000_000;
        }

  unfoldable pub write_off : Client → Client
  write_off c =
      let n = c.counters in
      if ltb 0 c.requests_outstanding
      then record c {
        counters = record n {
          http_inflight_lost = add64 n.http_inflight_lost c.requests_outstanding;
        };
      }
      else c

  unfoldable pub finish : ℕ → ℕ → Client → Client
  unfolding wait write_off
  finish now later c =
      let over = record c { finished = true } in
      let waited = wait now later over in
      if c.finished
      then c
      else write_off (
          if ltb 0 c.requests_outstanding && (not c.abandon_outstanding && ltb 0 c.timeout)
          then waited
          else over)

-- terminate(): whether the pool has active connections; what happens until dispatcher_.exit() is
-- a function of the client.
unfoldable pub terminate : Bool → (Client → Client) → Client → Client
terminate false dispatch c = c
terminate true dispatch c = dispatch (record c {
  measure_latencies = false;
  drain_timer = some (c.timeout * 1_000 - c.finish_waited);
  drains = true;
})

-- The callback of the pool when it is idle.
unfoldable pub on_idle : Client → Client
on_idle c = record c { drain_timer = none; exits = true }
