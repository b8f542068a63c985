-- ===== src/Udp/Sweep.antt =====
-- The sweep of a UdpBenchmarkClientImpl (engine/source/client/udp_benchmark_client_impl.cc).

use sortie.Prelude.{
  leb→le, ℕ, ◌-◌, ◌≤◌, ◌<◌, ◌≡◌, refl, ap, inl, inr, Bool, false, ◌&&◌, List, [], ◌∷◌, ◌++◌, arith,
  leb, Bool-cases, All,
}
use sortie.Prelude.Words.{add64}
use sortie.Udp.{is_empty, sweep, sweep_loop, Client, InflightDatagram}

abbrev pub Map : Type 0
Map = List (ℕ × InflightDatagram)

-- Sent at ascending times, from `from` on.
abbrev pub InOrder : ℕ → Map → Type 0
InOrder from [] = Unit {0}
InOrder from ((sequence, datagram) ∷ rest) =
    (from ≤ datagram.sent_at) × InOrder datagram.sent_at rest

abbrev pub InTime : ℕ → ℕ → ℕ × InflightDatagram → Type 0
InTime timeout now (sequence, datagram) = now - datagram.sent_at < timeout

abbrev pub TimedOut : ℕ → ℕ → ℕ × InflightDatagram → Type 0
TimedOut timeout now (sequence, datagram) = timeout ≤ now - datagram.sent_at

-- The calls of completion callbacks for datagrams that are lost, in this order.
abbrev pub given_up : Map → List (ℕ × Bool) → List (ℕ × Bool)
given_up [] calls = calls
given_up ((sequence, datagram) ∷ rest) calls =
    given_up rest ((datagram.completion_callback, false) ∷ calls)

young_rest :
    (timeout now from : ℕ) (m : Map)
    → now - from < timeout
    → InOrder from m
    → All (InTime timeout now) m
young_rest timeout now from [] h v = tt
young_rest timeout now from ((sequence, datagram) ∷ rest) h v = (
  omega (arith, v.0, h),
  young_rest timeout now datagram.sent_at rest (omega (arith, v.0, h)) v.1,
)

-- A sweep at `now` of what was in flight left `inflight`, and turned `before` into `after`.
pub record Parted (now timeout : ℕ) (queue inflight : Map) (before after : List (ℕ × Bool))
    : Type 0 where
  pub late : Map
  pub parted : queue ≡ late ++ inflight
  pub timed_out : All (TimedOut timeout now) late
  pub in_time : All (InTime timeout now) inflight
  pub calls : after ≡ given_up late before

abbrev pub Swept : ℕ → Map → Client → Client → Type 0
Swept now queue c d = Parted now c.timeout queue d.inflight c.completed d.completed

sweep_loop-Swept :
    (now from : ℕ) (queue : Map) (c : Client)
    → InOrder from queue
    → Swept now queue c (sweep_loop now queue c)
unfolding sweep_loop
sweep_loop-Swept now from [] c v = record {
  late = [];
  parted = refl;
  timed_out = tt;
  in_time = tt;
  calls = refl;
}
sweep_loop-Swept now from ((sequence, datagram) ∷ rest) c v =
    let n = c.counters in
    let less : Client = record c {
      inflight = rest;
      counters = record n { udp_lost = add64 n.udp_lost 1 };
      completed = (datagram.completion_callback, false) ∷ c.completed;
    } in
    let more = sweep_loop-Swept now datagram.sent_at rest less v.1 in
    elim (Bool-cases (leb c.timeout (now - datagram.sent_at))) [
      | inl late ↦ rw (late) (record {
        late = (sequence, datagram) ∷ more.late;
        parted = ap (◌∷◌ (sequence, datagram)) more.parted;
        timed_out = (leb→le c.timeout (now - datagram.sent_at) late, more.timed_out);
        in_time = more.in_time;
        calls = more.calls;
      })
      | inr soon ↦
          let young : now - datagram.sent_at < c.timeout = ground (arith, soon) in
          rw (soon) (record {
            late = [];
            parted = refl;
            timed_out = tt;
            in_time = (young, young_rest c.timeout now datagram.sent_at rest young v.1);
            calls = refl;
          })
    ]

-- A sweep of datagrams that were sent in order gives up on those that are past the timeout, and
-- on no other: what was in flight is those, whose callbacks are called as failures, oldest first,
-- followed by what stays in flight, none of which is past the timeout.
pub sweep-Swept :
    (now : ℕ) (c : Client) → InOrder 0 c.inflight → Swept now c.inflight c (sweep now c)
unfolding sweep
sweep-Swept now c v =
    let swept = sweep_loop now c.inflight c in
    let s = sweep_loop-Swept now 0 c.inflight c v in
    elim (Bool-cases (swept.draining && is_empty swept.inflight)) [
      | inl over ↦ rw (over) s
      | inr more ↦ rw (more) s
    ]
