-- ===== src/Udp/Examples.antt =====
-- A client that sends two datagrams, and the theorems applied to it.

use sortie.Prelude.Updates.{is_call, total}
use sortie.Prelude.Hex.{Hex, ReadsBack}
use sortie.Udp.Ledger.Total.{life_balances}
use sortie.Udp.Echo.{on_datagram-datagram}
use sortie.Udp.Sweep.{sweep-Swept, Swept}
use sortie.RateLimiter.{outcome_or}
use sortie.Prelude.Words.{u64_mod}
use sortie.Udp.Ledger.Lifecycle.{Step, run_steps, requested, readable, measure}
use sortie.Udp.{
  Client, prepare, terminate, udp_benchmark_client, sweep, on_datagram, datagram, erase,
  InflightDatagram,
}
-- The two functions of absl on numbers below ten: fifteen zeros and a digit.
use sortie.Prelude.{
  zero, suc, ℕ, ◌+◌, ◌-◌, ◌%◌, ◌≡◌, refl, true, false, Option, none, some, List, [], ◌∷◌, arith,
  if◌then◌else◌, length,
}

abbrev zeros : ℕ → List ℕ → List ℕ
zeros zero digits = digits
zeros (suc n) digits = 48 ∷ zeros n digits

abbrev last_digit : List ℕ → Option ℕ
last_digit [] = none
last_digit (x ∷ []) = some (x - 48)
last_digit (x ∷ rest) = last_digit rest

abbrev small_hex : Hex
small_hex = record { format_016x = λ n. zeros 15 ((48 + n) ∷ []); hex_atoi = last_digit }

abbrev no_client : Client
no_client = record {
  message_latency_statistic = [];
  max_inflight = 0;
  timeout = 0;
  drain_duration = 0;
  counters = record {
    udp_datagrams_sent = 0;
    udp_datagrams_received = 0;
    udp_lost = 0;
    udp_unexpected = 0;
    udp_send_errors = 0;
    udp_deferred = 0;
    udp_unavailable = 0;
  };
  socket = false;
  sweep_timer = none;
  drain_timer = none;
  message = [];
  inflight = [];
  next_sequence = 0;
  measure_latencies = false;
  draining = false;
  finished = false;
  completed = [];
  posted = [];
  exits = false;
}

abbrev fresh : Client
unfolding udp_benchmark_client
fresh = outcome_or no_client (udp_benchmark_client 2 1_000_000 300_000)

abbrev ready : Client
unfolding prepare
ready = outcome_or no_client (prepare (some (7 ∷ [])) true fresh)

-- Three requests, of which the third is deferred, and an echo.
abbrev used : List (ℕ × Step)
unfolding datagram
used =
    (0, measure true)
    ∷ (10, requested 1 true)
    ∷ (500_000, requested 2 true)
    ∷ (600_000, requested 3 true)
    ∷ (700_000, readable (datagram small_hex 1 (7 ∷ []) ∷ []))
    ∷ []

life_balances_example :
    let t = terminate (run_steps small_hex []) (run_steps small_hex used ready) in
    (total (is_call 2) t.completed + total (is_call 2) t.posted ≡ 1)
    × (length t.completed + length t.posted ≡ 3)
    × (t.counters.udp_datagrams_sent
        ≡ (t.counters.udp_datagrams_received + t.counters.udp_lost) % u64_mod)
    × (t.inflight ≡ [])
unfolding udp_benchmark_client prepare used
life_balances_example =
    life_balances small_hex 2 1_000_000 300_000 (some (7 ∷ [])) true fresh ready used [] 2 refl refl
      (omega arith) refl

abbrev first : InflightDatagram
first = record { sent_at = 10; completion_callback = 1 }

abbrev second : InflightDatagram
second = record { sent_at = 500_000; completion_callback = 2 }

-- Two datagrams are in flight.
abbrev waiting : Client
waiting = record ready {
  inflight = (0, first) ∷ (1, second) ∷ [];
  next_sequence = 2;
  measure_latencies = true;
}

-- The first is past the timeout, the second is not.
sweep-Swept_example : Swept 1_200_000 waiting.inflight waiting (sweep 1_200_000 waiting)
unfolding udp_benchmark_client prepare
sweep-Swept_example = sweep-Swept 1_200_000 waiting (omega arith, (omega arith, tt))

reads_one : ReadsBack small_hex 1
reads_one = record { digits = refl; reads = refl }

on_datagram-datagram_example :
    let d = on_datagram small_hex 700_000 (datagram small_hex 1 waiting.message) waiting in
    (d.inflight ≡ erase 1 waiting.inflight)
    × (d.completed ≡ (2, true) ∷ waiting.completed)
    × (d.message_latency_statistic ≡ (
        if waiting.measure_latencies
        then 200_000 ∷ waiting.message_latency_statistic
        else waiting.message_latency_statistic))
on_datagram-datagram_example =
    on_datagram-datagram small_hex 700_000 1 second waiting reads_one refl
