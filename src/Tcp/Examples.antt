-- ===== src/Tcp/Examples.antt =====
-- A small pool of connections, and the theorems applied to it.

use sortie.Tcp.Echoes.Mismatch.{on_data_mismatch}
use sortie.Tcp.Echoes.Losing.{lost}
use sortie.RateLimiter.{outcome_or}
use sortie.Tcp.Echoes.Order.{on_data-copies}
use sortie.Tcp.Echoes.{timed, answered, copies}
use sortie.Tcp.Backoff.{back_off_bounds}
use sortie.Tcp.Connections.{on_retry, on_connected}
use sortie.Tcp.Slots.{back_off}
use sortie.Tcp.Messages.{on_echo, on_data, try_start_request}
use sortie.Tcp.Ledger.{Ledger}
use sortie.Tcp.Ledger.Lifecycle.{life-Ledger}
use sortie.Tcp.Ledger.History.{handed_over, measure, retry_fired, read, run_steps, requested, Step}
use sortie.Tcp.{
  link_at, max_backoff, new_slot, initial_backoff, Slot, waits_nothing, connected, no_counts,
  tcp_benchmark_client, Network, Client,
}
use sortie.Tcp.{closed}
use sortie.Tcp.Life.{terminate, prepare}
use sortie.Prelude.{
  if◌then◌else◌, take, drop, arith, ◌≤◌, ◌≡◌, ℕ, refl, true, false, none, some, List, [], ◌∷◌,
}

abbrev no_client : Client
no_client = record {
  message_latency_statistic = [];
  connect_latency_statistic = [];
  connection_count = 0;
  max_inflight_per_connection = 0;
  expect_echo = false;
  drain_duration = 0;
  timeout = 0;
  max_messages_per_connection = 0;
  counters = no_counts;
  slots = [];
  links = [];
  message = [];
  next_slot = 0;
  pending_opens = 0;
  measure_latencies = false;
  waiting_for = waits_nothing;
  drain_timer = none;
  finished = false;
  echo_mismatch_logged = false;
  completed = [];
  posted = [];
  exits = false;
}

-- Connects at once, and flushes at once.
abbrev local : Network
local = record {
  has_connection = λ c at. true;
  connect_raises = λ c i. some connected;
  flushed = λ c i. true;
  write_blocks = λ c i. false;
}

-- Two connections, two messages in flight on each, rotated after three messages.
abbrev fresh : Client
unfolding tcp_benchmark_client
fresh = outcome_or no_client (tcp_benchmark_client 2 2 true 50_000_000 5_000_000_000 3)

abbrev ready : Client
unfolding prepare
ready = outcome_or no_client (prepare local (run_steps local []) 0 (some (7 ∷ 8 ∷ [])) fresh)

-- A message on each connection, an echo on the first, a wrong one on the second, and a retry.
abbrev used : List (ℕ × Step)
used =
    (1000, requested 1)
    ∷ (1000, requested 2)
    ∷ (2000, read 0 (7 ∷ []))
    ∷ (3000, read 0 (8 ∷ []))
    ∷ (3000, read 1 (7 ∷ 7 ∷ []))
    ∷ (4000, requested 3)
    ∷ (4000, requested 4)
    ∷ (10_004_000, retry_fired 1)
    ∷ []

life-Ledger_example : Ledger (handed_over used []) (
    terminate local
      (run_steps local ((10_006_000, read 0 (7 ∷ 8 ∷ [])) ∷ []))
      10_005_000
      10_007_000
      (run_steps local used ready))
unfolding tcp_benchmark_client prepare
life-Ledger_example =
    life-Ledger local 2 2 true 50_000_000 5_000_000_000 3 fresh ready (some (7 ∷ 8 ∷ [])) [] used
      ((10_006_000, read 0 (7 ∷ 8 ∷ [])) ∷ []) 0 10_005_000 10_007_000 refl refl refl refl

-- Four messages were asked for: the first was echoed, the second lost to the mismatch, the third
-- echoed in the drain, and the fourth had no connection.
abbrev ended : Client
unfolding prepare
ended =
    terminate local (run_steps local ((10_006_000, read 0 (7 ∷ 8 ∷ [])) ∷ [])) 10_005_000 10_007_000
      (run_steps local used ready)

-- Two messages wait for their echoes on the first connection.
abbrev waiting : Client
waiting =
    run_steps local
      ((0, measure true) ∷ (10, requested 1) ∷ (10, requested 2) ∷ (20, requested 3) ∷ []) ready

on_data-copies_example :
    let d = on_data local 90 0 (copies 1 waiting.message) waiting in
    ((link_at d 0).inflight ≡ drop 1 (link_at waiting 0).inflight)
    × (d.completed ≡ answered (take 1 (link_at waiting 0).inflight) waiting.completed)
    × (d.message_latency_statistic ≡ (
        if waiting.measure_latencies
        then timed 90 (take 1 (link_at waiting 0).inflight) waiting.message_latency_statistic
        else waiting.message_latency_statistic))
unfolding tcp_benchmark_client prepare try_start_request on_connected
on_data-copies_example =
    on_data-copies local 90 0 1 waiting refl (omega arith) refl refl (omega arith)

abbrev tired_slot : Slot
tired_slot = record new_slot { backoff = 640_000_000; last_retry = some 5_000_000_000 }

back_off_bounds_example :
    (initial_backoff ≤ (back_off 6_000_000_000 tired_slot).backoff)
    × ((back_off 6_000_000_000 tired_slot).backoff ≤ max_backoff)
    × ((wait : ℕ) × ((back_off 6_000_000_000 tired_slot).retry_timer ≡ some wait)
        × (initial_backoff ≤ wait)
        × (wait ≤ max_backoff))
back_off_bounds_example = back_off_bounds 6_000_000_000 tired_slot (omega arith) (omega arith)

ended_calls : ended.completed ≡ (3, true) ∷ (2, false) ∷ (1, true) ∷ []
unfolding tcp_benchmark_client prepare try_start_request on_connected on_data on_echo terminate
    on_retry
ended_calls = refl

on_data_mismatch_example :
    let d = on_data local 90 0 (7 ∷ 9 ∷ []) waiting in
    ((link_at d 0).state ≡ closed)
    × ((link_at d 0).inflight ≡ [])
    × (d.completed ≡ lost (link_at waiting 0).inflight waiting.completed)
    × (d.message_latency_statistic ≡ waiting.message_latency_statistic)
    × (on_data local 90 0 (7 ∷ 8 ∷ []) d ≡ d)
unfolding tcp_benchmark_client prepare try_start_request on_connected
on_data_mismatch_example =
    on_data_mismatch local 90 0 (7 ∷ 9 ∷ []) (7 ∷ 8 ∷ []) waiting refl refl refl (omega arith) refl
      refl
