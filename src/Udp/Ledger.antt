-- ===== src/Udp/Ledger.antt =====
-- The books of a UdpBenchmarkClientImpl, its completion callbacks and its counters, as numbers
-- (engine/source/client/udp_benchmark_client_impl.cc).
pub mod Lifecycle
pub mod Total
use sortie.Prelude.Updates.{total-append, is_call, total, is_callback}
use sortie.Prelude.Hex.{Hex}
use sortie.Prelude.{
  zero, suc, ℕ, ◌+◌, ◌-◌, ◌*◌, ◌/◌, ◌%◌, ◌≤◌, ◌<◌, min, max, ◌≡◌, refl, sym, ap, ◌∙◌, ◌≢◌, ◌↔◌, ◌⊎◌,
  inl, inr, Bool, true, false, not, ◌&&◌, ◌||◌, Option, none, some, List, [], ◌∷◌, ◌++◌, map, arith,
  ltb, leb, ◌==◌, ==_iff, if◌then◌else◌, Bool-cases, Option-cases, one_if, length, take, drop,
  length-append, take-append, drop-append, All, bit_and, bit_or, bit_xor,
}
use sortie.Prelude.Words.{add64, u64_mod}
use sortie.Udp.{
  look_up, echoed, on_echo, find, emplace, on_datagram, try_start_request, erase, Client,
  InflightDatagram,
}

abbrev pub Map : Type 0
Map = List (ℕ × InflightDatagram)

-- Whether a datagram waits for its echo with a callback.
abbrev pub waits : ℕ → ℕ × InflightDatagram → ℕ
waits k entry = is_callback k entry.1.completion_callback

abbrev pub Before : ℕ → ℕ × InflightDatagram → Type 0
Before sequence (other, datagram) = other < sequence

-- `handed` are the callbacks that were handed over: each was called, is posted or waits for its
-- echo, as often as it was handed over. What
-- was sent came back, was lost or is in flight, as the 64-bit counters have it. No more than
-- max_inflight datagrams are in flight, and all have numbers below the next one.
pub record BooksOf (handed : List ℕ) (max_inflight : ℕ) (completed posted : List (ℕ × Bool))
    (inflight : Map) (next_sequence sent received lost : ℕ) : Type 0 where
  pub calls : length completed + length posted + length inflight ≡ length handed
  pub owed :
      (k : ℕ)
      → total (is_call k) completed + total (is_call k) posted + total (waits k) inflight
        ≡ total (is_callback k) handed
  pub messages : sent ≡ (received + lost + length inflight) % u64_mod
  pub window : length inflight ≤ max_inflight
  pub numbers : All (Before next_sequence) inflight
  pub next : next_sequence ≤ length handed

abbrev pub Books : List ℕ → Client → Type 0
Books handed c =
    BooksOf handed c.max_inflight c.completed c.posted c.inflight c.next_sequence
      c.counters.udp_datagrams_sent c.counters.udp_datagrams_received c.counters.udp_lost

-- A number above all others is put at the end.
emplace-last :
    (sequence : ℕ) (datagram : InflightDatagram) (m : Map)
    → All (Before sequence) m
    → emplace sequence datagram m ≡ m ++ (sequence, datagram) ∷ []
emplace-last sequence datagram [] v = refl
emplace-last sequence datagram ((other, old) ∷ rest) v =
    ground (arith, emplace-last sequence datagram rest, v.0, v.1)

Before-append :
    (sequence : ℕ) (datagram : InflightDatagram) (m : Map)
    → All (Before sequence) m
    → All (Before (sequence + 1)) (m ++ (sequence, datagram) ∷ [])
Before-append sequence datagram [] v = (omega arith, tt)
Before-append sequence datagram ((other, old) ∷ rest) v =
    (omega (arith, v.0), Before-append sequence datagram rest v.1)

Before-weaken : (a b : ℕ) (m : Map) → a ≤ b → All (Before a) m → All (Before b) m
Before-weaken a b [] h v = tt
Before-weaken a b ((other, old) ∷ rest) h v = (omega (arith, v.0), Before-weaken a b rest h v.1)

length-erase :
    (sequence : ℕ) (datagram : InflightDatagram) (m : Map)
    → find sequence m ≡ some datagram
    → length (erase sequence m) + 1 ≡ length m
length-erase sequence datagram [] e = absurd (ground arith)
length-erase sequence datagram ((other, old) ∷ rest) e =
    ground (arith, length-erase sequence datagram rest)

abbrev found_waits : ℕ → Option InflightDatagram → ℕ
found_waits k none = 0
found_waits k (some datagram) = is_callback k datagram.completion_callback

waits-erase :
    (k sequence : ℕ) (datagram : InflightDatagram) (m : Map)
    → find sequence m ≡ some datagram
    → total (waits k) (erase sequence m) + is_callback k datagram.completion_callback
      ≡ total (waits k) m
waits-erase k sequence datagram [] e = absurd (ground arith)
waits-erase k sequence datagram ((other, old) ∷ rest) e = elim (Bool-cases (sequence == other)) [
  | inl same ↦
      let found = rw (same) at e in
      let its = ap (found_waits k) found in rw (same) (omega (arith, its))
  | inr differ ↦
      let further = rw (differ) at e in
      rw (differ) (omega (arith, waits-erase k sequence datagram rest further))
]

Before-erase : (a sequence : ℕ) (m : Map) → All (Before a) m → All (Before a) (erase sequence m)
Before-erase a sequence [] v = tt
Before-erase a sequence ((other, old) ∷ rest) v = elim (Bool-cases (sequence == other)) [
  | inl same ↦ rw (same) v.1
  | inr differ ↦ rw (differ) (v.0, Before-erase a sequence rest v.1)
]

module _ (handed : List ℕ) where
  -- A datagram that is sent.
  sent-Books :
      (now callback : ℕ) (c : Client)
      → length (callback ∷ handed) < u64_mod
      → length c.inflight < c.max_inflight
      → Books handed c
      → Books (callback ∷ handed) (record c {
        next_sequence = add64 c.next_sequence 1;
        counters = record c.counters { udp_datagrams_sent = add64 c.counters.udp_datagrams_sent 1 };
        inflight =
            emplace c.next_sequence
              (record { sent_at = now; completion_callback = callback })
              c.inflight;
      })
  sent-Books now callback c small room v =
      let d : InflightDatagram = record { sent_at = now; completion_callback = callback } in
      let put = emplace-last c.next_sequence d c.inflight v.numbers in
      let more = ap length put ∙ length-append c.inflight ((c.next_sequence, d) ∷ []) in
      let next : add64 c.next_sequence 1 ≡ c.next_sequence + 1 = omega (arith, v.next, small) in
      record {
        calls = omega (arith, v.calls, more);
        owed = λ k. omega (
          arith,
          v.owed k,
          ap (total (waits k)) put,
          total-append (waits k) c.inflight (c.next_sequence, d),
        );
        messages = omega (arith, v.messages, more);
        window = omega (arith, room, more);
        numbers = rw (put, next) (Before-append c.next_sequence d c.inflight v.numbers);
        next = omega (arith, next, v.next);
      }

  -- One that is not: its callback is posted as a failure, and it may have used up a number.
  dropped-Books :
      (callback n : ℕ) (c : Client)
      → c.next_sequence ≤ n
      → n ≤ length handed + 1
      → Books handed c
      → Books
          (callback ∷ handed)
          (record c { posted = (callback, false) ∷ c.posted; next_sequence = n })
  dropped-Books callback n c lo hi v = record {
    calls = omega (arith, v.calls);
    owed = λ k. omega (arith, v.owed k);
    messages = omega (arith, v.messages);
    window = v.window;
    numbers = Before-weaken c.next_sequence n c.inflight lo v.numbers;
    next = omega (arith, hi);
  }

  pub try_start_request-Books :
      (now callback : ℕ) (sends : Bool) (c : Client)
      → length (callback ∷ handed) < u64_mod
      → Books handed c
      → Books (callback ∷ handed) (try_start_request now callback sends c)
  unfolding try_start_request
  try_start_request-Books now callback sends c small v =
      let keeps =
        dropped-Books callback c.next_sequence c (omega arith) (omega (arith, v.next)) v in
      let next : add64 c.next_sequence 1 ≡ c.next_sequence + 1 = omega (arith, v.next, small) in
      let skips =
        dropped-Books callback (add64 c.next_sequence 1) c (omega (arith, next))
          (omega (arith, next, v.next)) v in
      elim (Bool-cases (not c.socket || c.draining)) [
        | inl gone ↦ rw (gone) keeps
        | inr there ↦ elim (Bool-cases (leb c.max_inflight (length c.inflight))) [
          | inl full ↦ rw (there, full) keeps
          | inr room ↦ elim (Bool-cases (not sends)) [
            | inl fails ↦ rw (there, room, fails) skips
            | inr works ↦
                rw (there, room, works) (sent-Books now callback c small (ground (arith, room)) v)
          ]
        ]
      ]

  -- An echo of a datagram that is in flight.
  echoed-Books :
      (now sequence : ℕ) (datagram : InflightDatagram) (c : Client)
      → find sequence c.inflight ≡ some datagram
      → Books handed c
      → Books handed (on_echo now (some (sequence, datagram)) c)
  unfolding on_echo
  echoed-Books now sequence datagram c e v =
      let one_less = length-erase sequence datagram c.inflight e in
      record {
        calls = omega (arith, v.calls, one_less);
        owed = λ k. omega (arith, v.owed k, waits-erase k sequence datagram c.inflight e);
        messages = omega (arith, v.messages, one_less);
        window = omega (arith, v.window, one_less);
        numbers = Before-erase c.next_sequence sequence c.inflight v.numbers;
        next = v.next;
      }

  pub on_datagram-Books :
      (hex : Hex) (now : ℕ) (bytes : List ℕ) (c : Client)
      → Books handed c
      → Books handed (on_datagram hex now bytes c)
  unfolding on_datagram on_echo
  on_datagram-Books hex now bytes c v = elim (Option-cases (echoed hex c.message bytes)) [
    | inl foreign ↦ rw (foreign) v
    | inr (sequence, told) ↦ elim (Option-cases (find sequence c.inflight)) [
      | inl unknown ↦ rw (told, unknown, look_up) v
      | inr (datagram, e) ↦ rw (told, e, look_up) (echoed-Books now sequence datagram c e v)
    ]
  ]
