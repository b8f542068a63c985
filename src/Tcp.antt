-- ===== src/Tcp.antt =====
-- TcpBenchmarkClientImpl (engine/source/client/tcp_benchmark_client_impl.{h,cc}): a pool of
-- connection slots. A Link is named by its place in the list of all that were made, so that a
-- pointer to one is a number; a Slot by its index. Times are nanoseconds.
pub mod Slots
pub mod Connections
pub mod Messages
pub mod Life
pub mod Ledger
pub mod Backoff
pub mod Echoes
mod Examples
use sortie.RateLimiter.{aborts, done, Outcome}
use sortie.Prelude.{
  update_at, get_or, zero, suc, ℕ, ◌+◌, ◌-◌, ◌*◌, ◌/◌, ◌%◌, ◌≤◌, ◌<◌, min, max, ◌≡◌, refl, sym, ap,
  ◌∙◌, ◌≢◌, ◌↔◌, ◌⊎◌, inl, inr, Bool, true, false, not, ◌&&◌, ◌||◌, Option, none, some, List, [],
  ◌∷◌, ◌++◌, map, arith, ltb, leb, ◌==◌, ==_iff, if◌then◌else◌, Bool-cases, Option-cases, one_if,
  length, take, drop, length-append, take-append, drop-append, All, bit_and, bit_or, bit_xor,
}

pub data State : Type 0 where
  connecting opened retiring closed : State

pub data Role : Type 0 where
  role_active role_standby role_retiring role_none : Role

pub data WaitingFor : Type 0 where
  waits_nothing waits_opens waits_echoes : WaitingFor

pub data ConnectionEvent : Type 0 where
  remote_close local_close connected connected_zero_rtt : ConnectionEvent

pub data CloseType : Type 0 where
  flush_write no_flush : CloseType

-- The completion callback is named by a number.
pub record InflightMessage : Type 0 where
  pub sent_at : ℕ
  pub completion_callback : ℕ

-- A timer is armed for a duration, or not.
pub record Link : Type 0 where
  pub slot : ℕ
  pub state : State
  pub initial : Bool
  pub initial_pending : Bool
  pub inflight : List InflightMessage
  pub received : List ℕ
  pub write_blocked : Bool
  pub sent : ℕ
  pub connect_started : ℕ
  pub timer : Option ℕ

pub record Slot : Type 0 where
  pub active : Option ℕ
  pub standby : Option ℕ
  pub retiring : List ℕ
  pub retry_timer : Option ℕ
  pub backoff : ℕ
  pub last_retry : Option ℕ

pub record Counters : Type 0 where
  pub tcp_connections_opened : ℕ
  pub tcp_connect_failures : ℕ
  pub tcp_reconnects : ℕ
  pub tcp_connections_rotated : ℕ
  pub tcp_messages_sent : ℕ
  pub tcp_messages_received : ℕ
  pub tcp_deferred : ℕ
  pub tcp_unavailable : ℕ
  pub tcp_connection_closed : ℕ
  pub tcp_echo_mismatch : ℕ
  pub tcp_inflight_lost : ℕ
  pub tcp_drain_incomplete : ℕ
  pub tcp_write_blocked : ℕ

-- `completed` holds the callbacks that were called and the success they were called with, newest
-- first, and `posted` those that the dispatcher will call; `exits` is whether dispatcher_.exit()
-- was called. Statistics hold what was recorded, newest first.
pub record Client : Type 0 where
  pub message_latency_statistic : List ℕ
  pub connect_latency_statistic : List ℕ
  pub connection_count : ℕ
  pub max_inflight_per_connection : ℕ
  pub expect_echo : Bool
  pub drain_duration : ℕ
  pub timeout : ℕ
  pub max_messages_per_connection : ℕ
  pub counters : Counters
  pub slots : List Slot
  pub links : List Link
  pub message : List ℕ
  pub next_slot : ℕ
  pub pending_opens : ℕ
  pub measure_latencies : Bool
  pub waiting_for : WaitingFor
  pub drain_timer : Option ℕ
  pub finished : Bool
  pub echo_mismatch_logged : Bool
  pub completed : List (ℕ × Bool)
  pub posted : List (ℕ × Bool)
  pub exits : Bool

-- What the program asks of the network library: whether the cluster gives a connection for a
-- slot, the event that connect() raises before it returns, whether a close that flushes raises its
-- event before it returns, and whether a write goes above the high watermark. A close without a
-- flush always raises its event before it returns.
pub record Network : Type 0 where
  pub has_connection : Client → ℕ → Bool
  pub connect_raises : Client → ℕ → Option ConnectionEvent
  pub flushed : Client → ℕ → Bool
  pub write_blocks : Client → ℕ → Bool

-- 10 ms, 1 s and 2 s.
abbrev pub initial_backoff : ℕ
initial_backoff = 10_000_000

abbrev pub max_backoff : ℕ
max_backoff = 1_000_000_000

abbrev pub backoff_starts_over_after : ℕ
backoff_starts_over_after = 2 * max_backoff

-- What is read where there is no link or slot.
abbrev pub no_link : Link
no_link = record {
  slot = 0;
  state = closed;
  initial = false;
  initial_pending = false;
  inflight = [];
  received = [];
  write_blocked = false;
  sent = 0;
  connect_started = 0;
  timer = none;
}

abbrev pub new_slot : Slot
new_slot = record {
  active = none;
  standby = none;
  retiring = [];
  retry_timer = none;
  backoff = initial_backoff;
  last_retry = none;
}

abbrev pub no_counts : Counters
no_counts = record {
  tcp_connections_opened = 0;
  tcp_connect_failures = 0;
  tcp_reconnects = 0;
  tcp_connections_rotated = 0;
  tcp_messages_sent = 0;
  tcp_messages_received = 0;
  tcp_deferred = 0;
  tcp_unavailable = 0;
  tcp_connection_closed = 0;
  tcp_echo_mismatch = 0;
  tcp_inflight_lost = 0;
  tcp_drain_incomplete = 0;
  tcp_write_blocked = 0;
}

abbrev pub new_slots : ℕ → List Slot
new_slots zero = []
new_slots (suc n) = new_slot ∷ new_slots n

-- The constructor; it asserts that both numbers are positive.
unfoldable pub tcp_benchmark_client : ℕ → ℕ → Bool → ℕ → ℕ → ℕ → Outcome Client
tcp_benchmark_client connections max_inflight expect_echo drain_duration timeout max_messages =
    if ltb 0 connections && ltb 0 max_inflight
    then done (record {
      message_latency_statistic = [];
      connect_latency_statistic = [];
      connection_count = connections;
      max_inflight_per_connection = max_inflight;
      expect_echo = expect_echo;
      drain_duration = drain_duration;
      timeout = timeout;
      max_messages_per_connection = max_messages;
      counters = no_counts;
      slots = new_slots connections;
      links = [];
      message = [];
      next_slot = 0;
      pending_opens = 0;
      measure_latencies = false;
      waiting_for = waits_nothing;
      drain_timer = none;
      finished = false;
      echo_mismatch_logged = false;
      completed = [];
      posted = [];
      exits = false;
    })
    else aborts

abbrev pub link_at : Client → ℕ → Link
link_at c i = get_or no_link i c.links

abbrev pub slot_at : Client → ℕ → Slot
slot_at c i = get_or new_slot i c.slots

abbrev pub set_link : ℕ → Link → Client → Client
set_link i link c = record c { links = update_at i (λ old. link) c.links }

abbrev pub set_slot : ℕ → Slot → Client → Client
set_slot i slot c = record c { slots = update_at i (λ old. slot) c.slots }
