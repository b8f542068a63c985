-- ===== src/Udp/Echo.antt =====
-- The matching of echoes of a UdpBenchmarkClientImpl
-- (engine/source/client/udp_benchmark_client_impl.cc).

use sortie.Prelude.Hex.{Hex, ReadsBack}
use sortie.Prelude.Words.{add64}
use sortie.Prelude.{
  same_bytes_refl, ℕ, ◌+◌, ◌-◌, ◌≤◌, ◌<◌, ◌≡◌, refl, inl, inr, true, none, some, List, [], ◌∷◌,
  arith, ◌==◌, ==_iff, if◌then◌else◌, Bool-cases, length-append, take-append, drop-append,
}
use sortie.Udp.{
  look_up, erase, Client, find, on_echo, datagram, sequence_prefix_length, InflightDatagram,
  on_datagram, echoed,
}

-- The sequence number is found again in the datagram that was sent.
echoed-datagram :
    (hex : Hex) (sequence : ℕ) (message : List ℕ)
    → ReadsBack hex sequence
    → echoed hex message (datagram hex sequence message) ≡ some sequence
unfolding echoed datagram
echoed-datagram hex sequence message h =
    let prefix = hex.format_016x sequence in
    let whole = length-append prefix message in
    let front = take-append sequence_prefix_length prefix message h.digits in
    let back = drop-append sequence_prefix_length prefix message h.digits in
    rw (front, back, same_bytes_refl message, h.reads) (ground (arith, whole, h.digits))

-- The echo of a datagram in flight, the bytes that were sent with its number, completes that
-- datagram as a success and takes it, and no other, out of flight; its latency is recorded if
-- latencies are measured. The two functions of absl are taken to read back the number that they
-- wrote.
pub on_datagram-datagram :
    (hex : Hex) (now sequence : ℕ) (sent : InflightDatagram) (c : Client)
    → ReadsBack hex sequence
    → find sequence c.inflight ≡ some sent
    → let d = on_datagram hex now (datagram hex sequence c.message) c in
      (d.inflight ≡ erase sequence c.inflight)
      × (d.completed ≡ (sent.completion_callback, true) ∷ c.completed)
      × (d.message_latency_statistic ≡ (
          if c.measure_latencies
          then (now - sent.sent_at) ∷ c.message_latency_statistic
          else c.message_latency_statistic))
unfolding on_datagram on_echo
on_datagram-datagram hex now sequence sent c h there =
    rw (echoed-datagram hex sequence c.message h, there, look_up) (refl, refl, refl)

-- Numbers ascend from `from` on.
abbrev pub Ascend : ℕ → List (ℕ × InflightDatagram) → Type 0
Ascend from [] = Unit {0}
Ascend from ((sequence, sent) ∷ rest) = (from ≤ sequence) × Ascend (sequence + 1) rest

not_found :
    (from sequence : ℕ) (m : List (ℕ × InflightDatagram))
    → sequence < from
    → Ascend from m
    → find sequence m ≡ none
not_found from sequence [] h v = refl
not_found from sequence ((other, sent) ∷ rest) h v =
    ground (arith, v.0, not_found (other + 1) sequence rest (omega (arith, v.0, h)) v.1)

find-erase :
    (from sequence : ℕ) (m : List (ℕ × InflightDatagram))
    → Ascend from m
    → find sequence (erase sequence m) ≡ none
find-erase from sequence [] v = refl
find-erase from sequence ((other, old) ∷ rest) v = elim (Bool-cases (sequence == other)) [
  | inl same ↦
      let equal = (==_iff sequence other).0 same in
      rw (same) (not_found (other + 1) sequence rest (omega (arith, equal)) v.1)
  | inr differ ↦ rw (differ, differ) (find-erase (other + 1) sequence rest v.1)
]

-- The echo of a datagram that was in flight, arriving a second time: with numbers in ascending
-- order the second one only counts as unexpected. The two functions of absl are taken to read back
-- the number that they wrote.
on_datagram_twice :
    (hex : Hex) (now later sequence : ℕ) (sent : InflightDatagram) (c : Client)
    → ReadsBack hex sequence
    → Ascend 0 c.inflight
    → find sequence c.inflight ≡ some sent
    → let bytes = datagram hex sequence c.message in
      let d = on_datagram hex now bytes c in
      on_datagram hex later bytes d ≡ record d {
        counters = record d.counters { udp_unexpected = add64 d.counters.udp_unexpected 1 };
      }
unfolding on_datagram on_echo
on_datagram_twice hex now later sequence sent c h v there =
    let gone = find-erase 0 sequence c.inflight v in
    rw (echoed-datagram hex sequence c.message h, there, look_up)
      (rw (echoed-datagram hex sequence c.message h, gone, look_up) refl)
