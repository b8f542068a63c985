-- ===== src/Udp/Ledger/Total.antt =====
-- What a UdpBenchmarkClientImpl has done once it is terminated
-- (engine/source/client/udp_benchmark_client_impl.cc).

use sortie.Prelude.Updates.{is_callback, is_call, total}
use mathlib.Core.Path.{subst}
use sortie.Prelude.Hex.{Hex}
use sortie.Prelude.{
  ℕ, ◌+◌, ◌-◌, ◌/◌, ◌%◌, ◌<◌, min, ◌≡◌, refl, ap, ◌∙◌, inl, inr, Bool, true, false, not, ◌&&◌,
  Option, none, some, List, [], ◌∷◌, arith, ltb, leb, Bool-cases, length,
}
use sortie.RateLimiter.{outcome_or, done}
use sortie.Prelude.Words.{add64, u64_mod}
use sortie.Udp.Ledger.Lifecycle.{
  length-handed_over, handed_over-none, handed_over, hand, complete_queue-Books, sweep-Books,
  on_readable-Books, Step, step, requested, readable, swept, measure, run_steps, count_requests,
}
use sortie.Udp.Ledger.{waits, try_start_request-Books, Map, Books}
use sortie.Udp.{
  prepare, udp_benchmark_client, is_empty, complete_all, drain, finish, terminate, on_echo, sweep,
  on_datagram, try_start_request, sweep_loop, on_readable, Client,
}

module _ (hex : Hex) where
  step-Books :
      (handed : List ℕ) (now : ℕ) (s : Step) (c : Client)
      → length (hand s handed) < u64_mod
      → Books handed c
      → Books (hand s handed) (step hex now s c)
  step-Books handed now (requested callback sends) c small v =
      try_start_request-Books handed now callback sends c small v
  step-Books handed now (readable datagrams) c small v =
      on_readable-Books handed hex now datagrams c v
  step-Books handed now swept c small v = sweep-Books handed now c v
  step-Books handed now (measure latencies) c small v = v

  run_steps-Books :
      (handed : List ℕ) (history : List (ℕ × Step)) (c : Client)
      → length (handed_over history handed) < u64_mod
      → Books handed c
      → Books (handed_over history handed) (run_steps hex history c)
  run_steps-Books handed [] c small v = v
  run_steps-Books handed ((now, s) ∷ rest) c small v =
      let size = length-handed_over rest (hand s handed) in
      run_steps-Books (hand s handed) rest (step hex now s c) small
        (step-Books handed now s c (omega (arith, size, small)) v)

  -- Nothing but finish() ends a client.
  on_readable-finished :
      (now : ℕ) (datagrams : List (List ℕ)) (c : Client)
      → (on_readable hex now datagrams c).finished ≡ c.finished
  unfolding on_readable on_datagram on_echo
  on_readable-finished now [] c = refl
  on_readable-finished now (bytes ∷ rest) c =
      ground (arith, on_readable-finished now rest (on_datagram hex now bytes c))

  sweep_loop-finished :
      (now : ℕ) (queue : Map) (c : Client) → (sweep_loop now queue c).finished ≡ c.finished
  unfolding sweep_loop
  sweep_loop-finished now [] c = refl
  sweep_loop-finished now ((sequence, datagram) ∷ rest) c =
      let n = c.counters in
      let kept = sweep_loop-finished now rest (record c {
        inflight = rest;
        counters = record n { udp_lost = add64 n.udp_lost 1 };
        completed = (datagram.completion_callback, false) ∷ c.completed;
      }) in
      elim (Bool-cases (leb c.timeout (now - datagram.sent_at))) [
        | inl late ↦ rw (late) kept
        | inr in_time ↦ rw (in_time) refl
      ]

  step-finished : (now : ℕ) (s : Step) (c : Client) → (step hex now s c).finished ≡ c.finished
  unfolding try_start_request sweep
  step-finished now (requested callback sends) c = ground arith
  step-finished now (readable datagrams) c = on_readable-finished now datagrams c
  step-finished now swept c = ground (arith, sweep_loop-finished now c.inflight c)
  step-finished now (measure latencies) c = refl

  run_steps-finished :
      (history : List (ℕ × Step)) (c : Client) → (run_steps hex history c).finished ≡ c.finished
  run_steps-finished [] c = refl
  run_steps-finished ((now, s) ∷ rest) c =
      run_steps-finished rest (step hex now s c) ∙ step-finished now s c

-- A client that has not finished and whose books are in order, in which nothing waits any more
-- once it is terminated, whatever arrives while it drains, except for requests.
terminate-Books :
    (hex : Hex) (handed : List ℕ) (draining : List (ℕ × Step)) (c : Client)
    → length handed < u64_mod
    → count_requests draining ≡ 0
    → c.finished ≡ false
    → Books handed c
    → let t = terminate (run_steps hex draining) c in Books handed t × (t.inflight ≡ [])
unfolding terminate finish drain complete_all
terminate-Books hex handed draining c small quiet live v =
    let ending : Client = record c { finished = true; draining = true } in
    let waiting : Client = record ending {
      drain_timer = some ((min c.drain_duration c.timeout + 999_999) / 1_000_000);
    } in
    let same = handed_over-none draining handed quiet in
    let waited =
      subst (λ l. Books l (run_steps hex draining waiting)) same
        (run_steps-Books hex handed draining waiting (omega (arith, ap length same, small)) v) in
    let all : Client = record (run_steps hex draining waiting) { drain_timer = none } in
    elim (Bool-cases (not (is_empty c.inflight) && c.socket)) [
      | inl waits ↦ rw (live, waits) (complete_queue-Books handed all.inflight all refl waited)
      | inr goes ↦ rw (live, goes) (complete_queue-Books handed ending.inflight ending refl v)
    ]

abbrev Fresh : Client → Type 0
Fresh c = Books [] c × (c.finished ≡ false)

new_client-Fresh :
    (max_inflight timeout drain_duration : ℕ) (c : Client)
    → udp_benchmark_client max_inflight timeout drain_duration ≡ done c
    → Fresh c
unfolding udp_benchmark_client
new_client-Fresh max_inflight timeout drain_duration c made =
    elim (Bool-cases (ltb 0 max_inflight && ltb 0 timeout)) [
      | inr refused ↦ absurd (ground (arith, refused))
      | inl fine ↦
          let built = rw (fine) at made in
          subst (λ o. Fresh (outcome_or c o)) built
            (
              record {
                calls = refl;
                owed = λ k. refl;
                messages = refl;
                window = omega arith;
                numbers = tt;
                next = omega arith;
              },
              refl,
            )
    ]

prepare-Fresh :
    (body : Option (List ℕ)) (connects : Bool) (c p : Client)
    → prepare body connects c ≡ done p
    → Fresh c
    → Fresh p
unfolding prepare
prepare-Fresh none connects c p ready v = absurd (ground arith)
prepare-Fresh (some body) true c p ready v = subst (λ o. Fresh (outcome_or c o)) ready v
prepare-Fresh (some body) false c p ready v = subst (λ o. Fresh (outcome_or c o)) ready v

-- A UDP client that is made, prepared, used and terminated, whatever the socket does, whatever
-- comes back and however it is asked, less than 2^64 times, with no request while it drains: every
-- completion callback was called or is posted as often as it was handed over, nothing is in flight,
-- and every datagram sent was received or is lost, as the 64-bit counters have it.
pub life_balances :
    (hex : Hex) (max_inflight timeout drain_duration : ℕ) (body : Option (List ℕ)) (connects : Bool)
    (c p : Client) (used draining : List (ℕ × Step)) (callback : ℕ)
    → udp_benchmark_client max_inflight timeout drain_duration ≡ done c
    → prepare body connects c ≡ done p
    → count_requests used < u64_mod
    → count_requests draining ≡ 0
    → let t = terminate (run_steps hex draining) (run_steps hex used p) in
      (total (is_call callback) t.completed + total (is_call callback) t.posted
        ≡ total (is_callback callback) (handed_over used []))
      × (length t.completed + length t.posted ≡ count_requests used)
      × (t.counters.udp_datagrams_sent
          ≡ (t.counters.udp_datagrams_received + t.counters.udp_lost) % u64_mod)
      × (t.inflight ≡ [])
life_balances hex max_inflight timeout drain_duration body connects c p used draining callback made
      ready small quiet =
    let start =
      prepare-Fresh body connects c p ready
        (new_client-Fresh max_inflight timeout drain_duration c made) in
    let size = length-handed_over used [] in
    let kept = run_steps-Books hex [] used p (omega (arith, size, small)) start.0 in
    let last =
      terminate-Books hex (handed_over used []) draining (run_steps hex used p)
        (omega (arith, size, small)) quiet (run_steps-finished hex used p ∙ start.1) kept in
    let nothing = ap length last.1 in
    let none_waits = ap (total (waits callback)) last.1 in
    (
      omega (arith, last.0.owed callback, none_waits),
      omega (arith, last.0.calls, nothing, size),
      omega (arith, last.0.messages, nothing),
      last.1,
    )
