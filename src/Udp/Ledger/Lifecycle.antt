-- ===== src/Udp/Ledger/Lifecycle.antt =====
-- The books of a UdpBenchmarkClientImpl over its whole life
-- (engine/source/client/udp_benchmark_client_impl.cc).

-- What can happen to a prepared client.
use sortie.Prelude.Updates.{total}
use mathlib.Core.Path.{subst}
use sortie.Prelude.Hex.{Hex}
use sortie.Prelude.Words.{add64}
use sortie.Udp.Ledger.{waits, BooksOf, Before, on_datagram-Books, Books, Map}
use sortie.Udp.{
  is_empty, on_datagram, try_start_request, Client, complete_queue, sweep, sweep_loop,
  InflightDatagram, on_readable,
}
use sortie.Prelude.{
  suc, ℕ, ◌+◌, ◌-◌, ◌≡◌, refl, ap, inl, inr, Bool, true, false, not, ◌&&◌, List, [], ◌∷◌, arith,
  leb, Bool-cases, one_if, length, All,
}

pub data Step : Type 0 where
  requested : ℕ → Bool → Step
  readable : List (List ℕ) → Step
  swept : Step
  measure : Bool → Step

abbrev pub step : Hex → ℕ → Step → Client → Client
step hex now (requested callback sends) c = try_start_request now callback sends c
step hex now (readable datagrams) c = on_readable hex now datagrams c
step hex now swept c = sweep now c
step hex now (measure latencies) c = record c { measure_latencies = latencies }

-- Steps with the times at which they happen.
abbrev pub run_steps : Hex → List (ℕ × Step) → Client → Client
run_steps hex [] c = c
run_steps hex ((now, s) ∷ rest) c = run_steps hex rest (step hex now s c)

abbrev pub is_request : Step → Bool
is_request (requested callback sends) = true
is_request _ = false

abbrev pub count_requests : List (ℕ × Step) → ℕ
count_requests [] = 0
count_requests ((now, s) ∷ rest) = one_if (is_request s) + count_requests rest

-- The callbacks that are handed over, the last one first.
abbrev pub hand : Step → List ℕ → List ℕ
hand (requested callback sends) handed = callback ∷ handed
hand (readable datagrams) handed = handed
hand swept handed = handed
hand (measure latencies) handed = handed

abbrev pub handed_over : List (ℕ × Step) → List ℕ → List ℕ
handed_over [] handed = handed
handed_over ((now, s) ∷ rest) handed = handed_over rest (hand s handed)

pub length-handed_over :
    (history : List (ℕ × Step)) (handed : List ℕ)
    → length (handed_over history handed) ≡ length handed + count_requests history
length-handed_over [] handed = omega arith
length-handed_over ((now, requested callback sends) ∷ rest) handed =
    omega (arith, length-handed_over rest (callback ∷ handed))
length-handed_over ((now, readable datagrams) ∷ rest) handed =
    omega (arith, length-handed_over rest handed)
length-handed_over ((now, swept) ∷ rest) handed = omega (arith, length-handed_over rest handed)
length-handed_over ((now, measure latencies) ∷ rest) handed =
    omega (arith, length-handed_over rest handed)

pub handed_over-none :
    (history : List (ℕ × Step)) (handed : List ℕ)
    → count_requests history ≡ 0
    → handed_over history handed ≡ handed
handed_over-none [] handed quiet = refl
handed_over-none ((now, requested callback sends) ∷ rest) handed quiet =
    absurd (omega (arith, quiet))
handed_over-none ((now, readable datagrams) ∷ rest) handed quiet =
    handed_over-none rest handed (omega (arith, quiet))
handed_over-none ((now, swept) ∷ rest) handed quiet =
    handed_over-none rest handed (omega (arith, quiet))
handed_over-none ((now, measure latencies) ∷ rest) handed quiet =
    handed_over-none rest handed (omega (arith, quiet))

module _ (handed : List ℕ) where
  pub on_readable-Books :
      (hex : Hex) (now : ℕ) (datagrams : List (List ℕ)) (c : Client)
      → Books handed c
      → Books handed (on_readable hex now datagrams c)
  unfolding on_readable
  on_readable-Books hex now [] c v = v
  on_readable-Books hex now (bytes ∷ rest) c v =
      let kept =
        on_readable-Books hex now rest (on_datagram hex now bytes c)
          (on_datagram-Books handed hex now bytes c v) in
      elim (Bool-cases (c.socket && not (is_empty bytes))) [
        | inl goes ↦ rw (goes) kept
        | inr ends ↦ rw (ends) v
      ]

  -- The oldest datagram is given up on.
  lost-Books :
      (sequence : ℕ) (datagram : InflightDatagram) (rest : Map) (c : Client)
      → c.inflight ≡ (sequence, datagram) ∷ rest
      → Books handed c
      → Books handed (record c {
        inflight = rest;
        counters = record c.counters { udp_lost = add64 c.counters.udp_lost 1 };
        completed = (datagram.completion_callback, false) ∷ c.completed;
      })
  lost-Books sequence datagram rest c e v =
      let one_less : length c.inflight ≡ suc (length rest) = ap length e in
      let numbers : All (Before c.next_sequence) ((sequence, datagram) ∷ rest) =
        subst (All (Before c.next_sequence)) e v.numbers in
      record {
        calls = omega (arith, v.calls, one_less);
        owed = λ k. omega (arith, v.owed k, ap (total (waits k)) e);
        messages = omega (arith, v.messages, one_less);
        window = omega (arith, v.window, one_less);
        numbers = numbers.1;
        next = v.next;
      }

  as_queue-Books :
      (queue : Map) (c : Client)
      → c.inflight ≡ queue
      → Books handed c
      → Books handed (record c { inflight = queue })
  as_queue-Books queue c e v =
      subst
        (λ m.
          BooksOf handed c.max_inflight c.completed c.posted m c.next_sequence
            c.counters.udp_datagrams_sent c.counters.udp_datagrams_received c.counters.udp_lost)
        e v

  sweep_loop-Books :
      (now : ℕ) (queue : Map) (c : Client)
      → c.inflight ≡ queue
      → Books handed c
      → Books handed (sweep_loop now queue c)
  unfolding sweep_loop
  sweep_loop-Books now [] c e v = as_queue-Books [] c e v
  sweep_loop-Books now ((sequence, datagram) ∷ rest) c e v =
      let n = c.counters in
      let less : Client = record c {
        inflight = rest;
        counters = record n { udp_lost = add64 n.udp_lost 1 };
        completed = (datagram.completion_callback, false) ∷ c.completed;
      } in
      let kept = sweep_loop-Books now rest less refl (lost-Books sequence datagram rest c e v) in
      elim (Bool-cases (leb c.timeout (now - datagram.sent_at))) [
        | inl late ↦ rw (late) kept
        | inr in_time ↦ rw (in_time) (as_queue-Books ((sequence, datagram) ∷ rest) c e v)
      ]

  pub sweep-Books : (now : ℕ) (c : Client) → Books handed c → Books handed (sweep now c)
  unfolding sweep
  sweep-Books now c v =
      let kept = sweep_loop-Books now c.inflight c refl v in
      let after = sweep_loop now c.inflight c in
      elim (Bool-cases (after.draining && is_empty after.inflight)) [
        | inl over ↦ rw (over) kept
        | inr more ↦ rw (more) kept
      ]

  pub complete_queue-Books :
      (queue : Map) (c : Client)
      → c.inflight ≡ queue
      → Books handed c
      → Books handed (complete_queue false queue c) × ((complete_queue false queue c).inflight ≡ [])
  unfolding complete_queue
  complete_queue-Books [] c e v = (as_queue-Books [] c e v, refl)
  complete_queue-Books ((sequence, datagram) ∷ rest) c e v =
      let n = c.counters in
      complete_queue-Books rest
        (record c {
          inflight = rest;
          counters = record n { udp_lost = add64 n.udp_lost 1 };
          completed = (datagram.completion_callback, false) ∷ c.completed;
        })
        refl (lost-Books sequence datagram rest c e v)
