-- ===== src/Tcp/Echoes.antt =====
-- How echoes are matched on a connection (engine/source/client/tcp_benchmark_client_impl.cc).
pub mod Match
pub mod Order
pub mod Losing
pub mod Mismatch
use sortie.Prelude.Words.{add64}
use sortie.Tcp.{link_at, set_link, Client, InflightMessage}
use sortie.Prelude.{
  zero, suc, ℕ, ◌+◌, ◌-◌, ◌*◌, ◌/◌, ◌%◌, ◌≤◌, ◌<◌, min, max, ◌≡◌, refl, sym, ap, ◌∙◌, ◌≢◌, ◌↔◌, ◌⊎◌,
  inl, inr, Bool, true, false, not, ◌&&◌, ◌||◌, Option, none, some, List, [], ◌∷◌, ◌++◌, map, arith,
  ltb, leb, ◌==◌, ==_iff, if◌then◌else◌, Bool-cases, Option-cases, one_if, length, take, drop,
  length-append, take-append, drop-append, All, bit_and, bit_or, bit_xor,
}

abbrev pub copies : ℕ → List ℕ → List ℕ
copies zero message = []
copies (suc k) message = message ++ copies k message

-- The calls of completion callbacks for messages that were answered in this order.
abbrev pub answered : List InflightMessage → List (ℕ × Bool) → List (ℕ × Bool)
answered [] calls = calls
answered (message ∷ rest) calls = answered rest ((message.completion_callback, true) ∷ calls)

-- Their latencies, when they come at `now`.
abbrev pub timed : ℕ → List InflightMessage → List ℕ → List ℕ
timed now [] latencies = latencies
timed now (message ∷ rest) latencies = timed now rest ((now - message.sent_at) ∷ latencies)

-- What the wait loop's end leaves alone.
pub record SameBooks (c d : Client) : Type 0 where
  pub links : d.links ≡ c.links
  pub completed : d.completed ≡ c.completed
  pub latencies : d.message_latency_statistic ≡ c.message_latency_statistic
  pub message : d.message ≡ c.message
  pub measures : d.measure_latencies ≡ c.measure_latencies

-- The oldest message in flight is answered.
abbrev pub matched : ℕ → ℕ → InflightMessage → List InflightMessage → Client → Client
matched now i message rest c =
    let n = c.counters in
    record (set_link i (record (link_at c i) { inflight = rest }) c) {
      counters = record n { tcp_messages_received = add64 n.tcp_messages_received 1 };
      message_latency_statistic =
          if c.measure_latencies
          then (now - message.sent_at) ∷ c.message_latency_statistic
          else c.message_latency_statistic;
      completed = (message.completion_callback, true) ∷ c.completed;
    }
