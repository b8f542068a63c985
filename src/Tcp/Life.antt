-- ===== src/Tcp/Life.antt =====
-- The life of a TcpBenchmarkClientImpl: prepare(), finish() and terminate()
-- (engine/source/client/tcp_benchmark_client_impl.cc).

use sortie.Prelude.{
  zero, suc, ℕ, ◌+◌, ◌/◌, true, false, ◌&&◌, Option, none, some, List, [], ◌∷◌, ◌==◌, if◌then◌else◌,
}
use sortie.Prelude.Words.{add64}
use sortie.Tcp.Slots.{links, is_empty, is_connecting, any_inflight}
use sortie.Tcp.Connections.{on_close, close_link, open_link}
use sortie.RateLimiter.{done, aborts, Outcome}
use sortie.Tcp.{
  waits_opens, no_flush, waits_nothing, link_at, flush_write, waits_echoes, role_active, Slot,
  Client, Network,
}

abbrev pub without_retries : List Slot → List Slot
without_retries [] = []
without_retries (slot ∷ slots) = record slot { retry_timer = none } ∷ without_retries slots

-- dispatcher_.run(): what happens until dispatcher_.exit() is a function of the client.
module _ (net : Network) (dispatch : Client → Client) where
  unfoldable pub open_all : ℕ → ℕ → ℕ → Client → Client
  unfolding open_link
  open_all now i zero c = c
  open_all now i (suc n) c = open_all now (i + 1) n (open_link net now i role_active true c)

  -- The wait for every first attempt to connect.
  unfoldable pub await_opens : Client → Client
  await_opens c =
      if c.pending_opens == 0
      then c
      else record (dispatch (record c { waiting_for = waits_opens })) {
        waiting_for = waits_nothing;
      }

  unfoldable pub prepare : ℕ → Option (List ℕ) → Client → Outcome Client
  unfolding open_all await_opens
  prepare now none c = aborts
  prepare now (some body) c =
      if c.expect_echo && is_empty body
      then aborts
      else done (await_opens (open_all now 0 c.connection_count (record c { message = body })))

  unfoldable pub drop_connecting : ℕ → List ℕ → Client → Client
  unfolding close_link
  drop_connecting now [] c = c
  drop_connecting now (i ∷ is) c =
      drop_connecting now is
        (if is_connecting (link_at c i).state then close_link net now no_flush i c else c)

  -- The wait for outstanding echoes; its timer counts milliseconds.
  unfoldable pub drain : Client → Client
  drain c =
      if any_inflight c
      then record (dispatch (record c {
        waiting_for = waits_echoes;
        drain_timer = some ((c.drain_duration + 999_999) / 1_000_000);
      })) { waiting_for = waits_nothing; drain_timer = none }
      else c

  unfoldable pub close_all : ℕ → List ℕ → Client → Client
  unfolding close_link
  close_all now [] c = c
  close_all now (i ∷ is) c =
      let n = c.counters in
      close_all now is (
        close_link net now flush_write i (
          if is_empty (link_at c i).inflight then c else record c {
            counters = record n { tcp_drain_incomplete = add64 n.tcp_drain_incomplete 1 };
          }))

  -- `now` is the time at which it is called, and `later` the time after the wait.
  unfoldable pub finish : ℕ → ℕ → Client → Client
  unfolding drop_connecting drain close_all
  finish now later c =
      let stopped = record c { finished = true; slots = without_retries c.slots } in
      let waited = drain (drop_connecting now (links stopped.slots) stopped) in
      if c.finished then c else close_all later (links waited.slots) waited

  -- A close on a connection whose link is closed already; its event comes before it returns.
  unfoldable pub cut_short : ℕ → List ℕ → Client → Client
  unfolding on_close
  cut_short now [] c = c
  cut_short now (i ∷ is) c = cut_short now is (on_close now i c)

  unfoldable pub terminate : ℕ → ℕ → Client → Client
  unfolding finish cut_short
  terminate now later c =
      let finished = record (finish now later c) { measure_latencies = false } in
      cut_short later (links finished.slots) finished
