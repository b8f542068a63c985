-- ===== src/Udp.antt =====
-- UdpBenchmarkClientImpl (engine/source/client/udp_benchmark_client_impl.{h,cc}): datagrams that
-- carry a sequence number, matched with their echoes by that number. Times are nanoseconds.
pub mod Ledger
pub mod Sweep
pub mod Echo
mod Examples
use sortie.Prelude.Hex.{Hex}
use sortie.Prelude.Words.{add64}
use sortie.RateLimiter.{aborts, done, Outcome}
use sortie.Prelude.{
  same_bytes, zero, suc, ℕ, ◌+◌, ◌-◌, ◌*◌, ◌/◌, ◌%◌, ◌≤◌, ◌<◌, min, max, ◌≡◌, refl, sym, ap, ◌∙◌,
  ◌≢◌, ◌↔◌, ◌⊎◌, inl, inr, Bool, true, false, not, ◌&&◌, ◌||◌, Option, none, some, List, [], ◌∷◌,
  ◌++◌, map, arith, ltb, leb, ◌==◌, ==_iff, if◌then◌else◌, Bool-cases, Option-cases, one_if, length,
  take, drop, length-append, take-append, drop-append, All, bit_and, bit_or, bit_xor,
}

-- The completion callback is named by a number.
pub record InflightDatagram : Type 0 where
  pub sent_at : ℕ
  pub completion_callback : ℕ

pub record Counters : Type 0 where
  pub udp_datagrams_sent : ℕ
  pub udp_datagrams_received : ℕ
  pub udp_lost : ℕ
  pub udp_unexpected : ℕ
  pub udp_send_errors : ℕ
  pub udp_deferred : ℕ
  pub udp_unavailable : ℕ

-- `inflight` is the ordered map, by ascending sequence number; `socket` is whether there is one.
-- `completed` holds the callbacks that were called and the success they were called with, newest
-- first, and `posted` those that the dispatcher will call; `exits` is whether dispatcher_.exit()
-- was called. A timer is armed for a duration, or is not there.
pub record Client : Type 0 where
  pub message_latency_statistic : List ℕ
  pub max_inflight : ℕ
  pub timeout : ℕ
  pub drain_duration : ℕ
  pub counters : Counters
  pub socket : Bool
  pub sweep_timer : Option ℕ
  pub drain_timer : Option ℕ
  pub message : List ℕ
  pub inflight : List (ℕ × InflightDatagram)
  pub next_sequence : ℕ
  pub measure_latencies : Bool
  pub draining : Bool
  pub finished : Bool
  pub completed : List (ℕ × Bool)
  pub posted : List (ℕ × Bool)
  pub exits : Bool

abbrev pub sequence_prefix_length : ℕ
sequence_prefix_length = 16

-- 50 ms.
abbrev pub sweep_interval : ℕ
sweep_interval = 50_000_000

-- The constructor; it asserts that both are positive.
unfoldable pub udp_benchmark_client : ℕ → ℕ → ℕ → Outcome Client
udp_benchmark_client max_inflight timeout drain_duration =
    if ltb 0 max_inflight && ltb 0 timeout
    then done (record {
      message_latency_statistic = [];
      max_inflight = max_inflight;
      timeout = timeout;
      drain_duration = drain_duration;
      counters = record {
        udp_datagrams_sent = 0;
        udp_datagrams_received = 0;
        udp_lost = 0;
        udp_unexpected = 0;
        udp_send_errors = 0;
        udp_deferred = 0;
        udp_unavailable = 0;
      };
      socket = false;
      sweep_timer = none;
      drain_timer = none;
      message = [];
      inflight = [];
      next_sequence = 0;
      measure_latencies = false;
      draining = false;
      finished = false;
      completed = [];
      posted = [];
      exits = false;
    })
    else aborts

-- prepare(): the body of the request, if there is one, and whether there is a host and a socket
-- towards it that opens and connects.
unfoldable pub prepare : Option (List ℕ) → Bool → Client → Outcome Client
prepare none connects c = aborts
prepare (some body) true c =
    done (record c { message = body; socket = true; sweep_timer = some sweep_interval })
prepare (some body) false c =
    let n = c.counters in
    done (record c {
      message = body;
      counters = record n { udp_unavailable = add64 n.udp_unavailable 1 };
    })

-- inflight_.emplace(): an entry that is there stays.
abbrev pub emplace :
    ℕ → InflightDatagram → List (ℕ × InflightDatagram) → List (ℕ × InflightDatagram)
emplace sequence datagram [] = (sequence, datagram) ∷ []
emplace sequence datagram ((other, old) ∷ rest) =
    if ltb sequence other
    then (sequence, datagram) ∷ (other, old) ∷ rest
    else if sequence == other
    then (other, old) ∷ rest
    else (other, old) ∷ emplace sequence datagram rest

abbrev pub find : ℕ → List (ℕ × InflightDatagram) → Option InflightDatagram
find sequence [] = none
find sequence ((other, datagram) ∷ rest) =
    if sequence == other then some datagram else find sequence rest

abbrev pub erase : ℕ → List (ℕ × InflightDatagram) → List (ℕ × InflightDatagram)
erase sequence [] = []
erase sequence ((other, datagram) ∷ rest) =
    if sequence == other then rest else (other, datagram) ∷ erase sequence rest

-- tryStartRequest(), which returns true; `sends` is whether writev() succeeds.
unfoldable pub try_start_request : ℕ → ℕ → Bool → Client → Client
try_start_request now callback sends c =
    let n = c.counters in
    let dropped = (callback, false) ∷ c.posted in
    if not c.socket || c.draining
    then record c {
      counters = record n { udp_unavailable = add64 n.udp_unavailable 1 };
      posted = dropped;
    }
    else if leb c.max_inflight (length c.inflight)
    then record c {
      counters = record n { udp_deferred = add64 n.udp_deferred 1 };
      posted = dropped;
    }
    else if not sends
    then record c {
      next_sequence = add64 c.next_sequence 1;
      counters = record n { udp_send_errors = add64 n.udp_send_errors 1 };
      posted = dropped;
    }
    else record c {
      next_sequence = add64 c.next_sequence 1;
      counters = record n { udp_datagrams_sent = add64 n.udp_datagrams_sent 1 };
      inflight =
          emplace c.next_sequence (record { sent_at = now; completion_callback = callback })
            c.inflight;
    }

abbrev pub is_empty : {A : Type 0} → List A → Bool
is_empty [] = true
is_empty (x ∷ xs) = false

-- What onDatagram() does with a sequence number that it found in front of the message, or not.
unfoldable pub on_echo : ℕ → Option (ℕ × InflightDatagram) → Client → Client
on_echo now none c =
    let n = c.counters in
    record c { counters = record n { udp_unexpected = add64 n.udp_unexpected 1 } }
on_echo now (some (sequence, datagram)) c =
    let n = c.counters in
    let rest = erase sequence c.inflight in
    record c {
      inflight = rest;
      counters = record n { udp_datagrams_received = add64 n.udp_datagrams_received 1 };
      message_latency_statistic =
          if c.measure_latencies
          then (now - datagram.sent_at) ∷ c.message_latency_statistic
          else c.message_latency_statistic;
      completed = (datagram.completion_callback, true) ∷ c.completed;
      exits = c.exits || (c.draining && is_empty rest);
    }

abbrev pub look_up : Option ℕ → Client → Option (ℕ × InflightDatagram)
look_up none c = none
look_up (some sequence) c = elim (find sequence c.inflight) [
  | none ↦ none
  | some datagram ↦ some (sequence, datagram)
]

module _ (hex : Hex) where
  -- The datagram that is sent.
  unfoldable pub datagram : ℕ → List ℕ → List ℕ
  datagram sequence message = hex.format_016x sequence ++ message

  -- The sequence number of an echo, if it is one.
  unfoldable pub echoed : List ℕ → List ℕ → Option ℕ
  echoed message bytes =
      if ltb (length bytes) sequence_prefix_length
      then none
      else if same_bytes (drop sequence_prefix_length bytes) message
      then hex.hex_atoi (take sequence_prefix_length bytes)
      else none

  unfoldable pub on_datagram : ℕ → List ℕ → Client → Client
  unfolding on_echo echoed
  on_datagram now bytes c = on_echo now (look_up (echoed c.message bytes) c) c

  -- onReadable() on what the socket has to read: none, or a datagram of no bytes, ends it.
  unfoldable pub on_readable : ℕ → List (List ℕ) → Client → Client
  unfolding on_datagram
  on_readable now [] c = c
  on_readable now (bytes ∷ rest) c =
      let next = on_readable now rest (on_datagram now bytes c) in
      if c.socket && not (is_empty bytes) then next else c

-- The loop of sweep(), over what is in flight.
unfoldable pub sweep_loop : ℕ → List (ℕ × InflightDatagram) → Client → Client
sweep_loop now [] c = record c { inflight = [] }
sweep_loop now ((sequence, datagram) ∷ rest) c =
    let n = c.counters in
    let next = sweep_loop now rest (record c {
      inflight = rest;
      counters = record n { udp_lost = add64 n.udp_lost 1 };
      completed = (datagram.completion_callback, false) ∷ c.completed;
    }) in
    if leb c.timeout (now - datagram.sent_at)
    then next
    else record c { inflight = (sequence, datagram) ∷ rest }

abbrev pub rearm : Option ℕ → Option ℕ
rearm none = none
rearm (some _) = some sweep_interval

unfoldable pub sweep : ℕ → Client → Client
unfolding sweep_loop
sweep now c =
    let swept = sweep_loop now c.inflight c in
    if swept.draining && is_empty swept.inflight
    then record swept { exits = true }
    else record swept { sweep_timer = rearm swept.sweep_timer }

unfoldable pub complete_queue : Bool → List (ℕ × InflightDatagram) → Client → Client
complete_queue success [] c = record c { inflight = [] }
complete_queue success ((sequence, datagram) ∷ rest) c =
    let n = c.counters in
    complete_queue success rest (record c {
      inflight = rest;
      counters = if success then n else record n { udp_lost = add64 n.udp_lost 1 };
      completed = (datagram.completion_callback, success) ∷ c.completed;
    })

unfoldable pub complete_all : Bool → Client → Client
unfolding complete_queue
complete_all success c = complete_queue success c.inflight c

-- finish(); what happens until dispatcher_.exit() is a function of the client. The drain timer
-- counts milliseconds.
module _ (dispatch : Client → Client) where
  unfoldable pub drain : Client → Client
  drain c =
      if not (is_empty c.inflight) && c.socket
      then record (dispatch (record c {
        drain_timer = some ((min c.drain_duration c.timeout + 999_999) / 1_000_000);
      })) { drain_timer = none }
      else c

  unfoldable pub finish : Client → Client
  unfolding drain complete_all
  finish c =
      if c.finished
      then c
      else record (complete_all false (drain (record c { finished = true; draining = true }))) {
        sweep_timer = none;
      }

  unfoldable pub terminate : Client → Client
  unfolding finish
  terminate c = record (finish c) { measure_latencies = false; socket = false }
