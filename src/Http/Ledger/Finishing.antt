-- ===== src/Http/Ledger/Finishing.antt =====
-- The books of a BenchmarkClientHttpImpl at the end of finish()
-- (engine/source/client/benchmark_client_impl.{h,cc}).
use sortie.Prelude.{
  ℕ, ◌+◌, ◌*◌, ◌%◌, ◌<◌, ◌≡◌, inl, inr, Bool, true, false, not, ◌&&◌, some, List, [], ◌∷◌, arith,
  ltb, if◌then◌else◌, Bool-cases, length, All,
}
use sortie.Prelude.Updates.{total}
use sortie.Prelude.Words.{sub64, u64_mod}
use sortie.Http.{benchmark_client, configure, Limits, Protocol, Client, Surroundings, Counters}
use sortie.Http.Life.{finish, Network, wait_loop, wait, write_off}
use sortie.Http.Ledger.{
  ended_with, call_of, outstanding, if-BooksWith, answers, phases, failures, sides, Books,
  counted-Books,
}
use sortie.Http.Ledger.History.{new_client-Books, Run, Run-Books}

-- A run of the dispatcher in which no request is made.
abbrev pub IsQuietRun : Surroundings → Network → (Client → Client) → Type 0
IsQuietRun around net run = (d : Client) → Run around net 0 d (run d)

-- Every request that was accepted is in one counter of the run: a status class, the resets, the
-- pool's failures or the lost ones. In gRPC mode a call with status 2xx that failed is in none.
pub record Accounted (requests : ℕ) (n : Counters) (grpc : Bool) : Type 0 where
  pub every_request :
      grpc ≡ false
      → (answers n + n.stream_resets + failures n + n.http_inflight_lost) % u64_mod
        ≡ requests % u64_mod
  pub resets_by_phase : phases n % u64_mod ≡ n.stream_resets % u64_mod
  pub failures_by_side : sides n % u64_mod ≡ n.pool_connection_failure % u64_mod

module _ (around : Surroundings) (net : Network) (requests : ℕ) (few : requests + 1 < u64_mod) where
  wait_loop-Books :
      (runs : List (Client → Client)) (c : Client)
      → All (IsQuietRun around net) runs
      → Books requests c
      → Books requests (wait_loop runs c)
  unfolding wait_loop
  wait_loop-Books [] c quiet v = v
  wait_loop-Books (run ∷ runs) c quiet v =
      let ran =
        counted-Books (requests + 0) requests (run c) (omega arith)
          (Run-Books around net requests (quiet.0 c) (omega (arith, few)) v) in
      if-BooksWith requests 0
        (ltb 0 c.requests_outstanding && (not c.finish_timed_out && not c.abandon_outstanding))
        (wait_loop runs (run c)) c (wait_loop-Books runs (run c) quiet.1 ran) v

  wait-Books :
      (runs : List (Client → Client)) (now later : ℕ) (c : Client)
      → All (IsQuietRun around net) runs
      → Books requests c
      → Books requests (wait runs now later c)
  unfolding wait
  wait-Books runs now later c quiet v =
      wait_loop-Books runs
        (record c { finish_timer = some (c.timeout * 1_000); waiting_in_finish = true }) quiet v

  write_off-Accounted :
      (runs : List (Client → Client)) (c : Client)
      → Books requests c
      → Accounted requests (write_off runs c).counters (write_off runs c).grpc
  unfolding write_off
  write_off-Accounted runs c v = elim (Bool-cases (ltb 0 c.requests_outstanding)) [
    | inl some_left ↦ rw (some_left) (record {
      every_request = λ e. omega (arith, v.ends, v.scored e, v.waiting, v.none_lost);
      resets_by_phase = omega (arith, v.phased);
      failures_by_side = v.sided;
    })
    | inr none_left ↦
        let zero_left : c.requests_outstanding ≡ 0 = ground (arith, none_left) in
        rw (none_left) (record {
          every_request = λ e. omega (arith, v.ends, v.scored e, v.waiting, v.none_lost, zero_left);
          resets_by_phase = omega (arith, v.phased);
          failures_by_side = v.sided;
        })
  ]

  settles_at_last :
      (runs : List (Client → Client)) (now later : ℕ) (c : Client)
      → All (IsQuietRun around net) runs
      → c.finished ≡ false
      → Books requests c
      → Accounted requests (finish runs now later c).counters (finish runs now later c).grpc
  unfolding finish
  settles_at_last runs now later c quiet going v =
      let over : Client = record c { finished = true } in
      let waited = wait runs now later over in
      let waits = ltb 0 c.requests_outstanding && (not c.abandon_outstanding && ltb 0 c.timeout) in
      let kept : Books requests (if waits then waited else over) =
        if-BooksWith requests 0 waits waited over (wait-Books runs now later over quiet v) v in
      rw (going) (write_off-Accounted runs (if waits then waited else over) kept)

-- A client that is made, configured and used, whatever its streams and the pool do, and that
-- finish() finds unfinished, with a wait in which no request is made: as 64-bit counters have it,
-- every request that tryStartRequest() accepted is in exactly one of the status classes, the
-- resets, the pool's failures and http_inflight_lost, unless gRPC calls are scored; every reset is
-- in one phase, and every connection failure on one side. Fewer than 2^64 requests are assumed.
pub finish-Accounted :
    (around : Surroundings) (net : Network) (protocol : Protocol)
    (backpressure latency_header : Bool) (limits : Limits) (requests now later : ℕ) (used : Client)
    (runs : List (Client → Client))
    → requests + 1 < u64_mod
    → Run around net requests
        (configure limits (benchmark_client protocol backpressure latency_header))
        used
    → used.finished ≡ false
    → All (IsQuietRun around net) runs
    → Accounted requests (finish runs now later used).counters (finish runs now later used).grpc
finish-Accounted around net protocol backpressure latency_header limits requests now later used runs
      few run going quiet =
    let fresh = new_client-Books protocol backpressure latency_header limits in
    let client = configure limits (benchmark_client protocol backpressure latency_header) in
    settles_at_last around net requests few runs now later used quiet going (
      counted-Books (0 + requests) requests used (omega arith)
        (Run-Books around net 0 run (omega (arith, few)) fresh))

-- A client that is made, configured and used, whatever its streams and the pool do: it has as
-- many decoders as requests were accepted; a completion callback was
-- called as often as decoders with it have ended; the calls of all callbacks and the outstanding
-- decoders are as many as the requests; requests_outstanding is the number of the outstanding ones; and what the backpressure of
-- tryStartRequest() takes for requests in flight, those initiated less those completed, is the
-- outstanding ones and those that the pool failed, as 64-bit numbers. Fewer than 2^64 requests are
-- assumed.
pub requests_add_up :
    (around : Surroundings) (net : Network) (protocol : Protocol)
    (backpressure latency_header : Bool) (limits : Limits) (requests callback : ℕ) (used : Client)
    → requests + 1 < u64_mod
    → Run around net requests
        (configure limits (benchmark_client protocol backpressure latency_header))
        used
    → (length used.decoders ≡ requests)
      × (total (call_of callback) used.completed ≡ total (ended_with callback) used.decoders)
      × (length used.completed + total outstanding used.decoders ≡ requests)
      × (used.requests_outstanding ≡ total outstanding used.decoders)
      × (sub64 used.requests_initiated used.requests_completed % u64_mod
          ≡ (used.requests_outstanding + failures used.counters) % u64_mod)
requests_add_up around net protocol backpressure latency_header limits requests callback used few
      run =
    let fresh = new_client-Books protocol backpressure latency_header limits in
    let v : Books requests used =
      counted-Books (0 + requests) requests used (omega arith)
        (Run-Books around net 0 run (omega (arith, few)) fresh) in
    (
      v.there,
      v.owed callback,
      v.calls,
      v.waiting,
      omega (arith, v.ends, v.waiting, v.initiated_all, v.word),
    )
