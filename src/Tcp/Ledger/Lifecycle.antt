-- ===== src/Tcp/Ledger/Lifecycle.antt =====
-- The books of a TcpBenchmarkClientImpl over its whole life
-- (engine/source/client/tcp_benchmark_client_impl.cc).

use mathlib.Core.Path.{subst}
use sortie.Prelude.{
  zero, suc, ℕ, ◌+◌, ◌/◌, ◌≡◌, refl, inl, inr, Bool, true, false, ◌&&◌, Option, none, some, List,
  [], ◌∷◌, arith, ltb, ◌==◌, if◌then◌else◌, Bool-cases,
}
use sortie.RateLimiter.{outcome_or, done}
use sortie.Tcp.Ledger.Opening.{open_link-Ledger}
use sortie.Tcp.Slots.{links, any_inflight, is_empty, is_connecting}
use sortie.Tcp.Ledger.Closing.{close_link-Ledger, on_close-Ledger}
use sortie.Tcp.Connections.{close_link, open_link}
use sortie.Prelude.Words.{add64}
use sortie.Tcp.Ledger.{if-Ledger, Ledger}
use sortie.Tcp.Ledger.History.{
  handed_over, handed_over-none, run_steps-Ledger, run_steps, count_requests, Step,
}
use sortie.Tcp.Life.{
  await_opens, prepare, without_retries, terminate, finish, drain, cut_short, close_all,
  drop_connecting, open_all,
}
use sortie.Tcp.{
  waits_opens, tcp_benchmark_client, flush_write, no_flush, waits_nothing, link_at, waits_echoes,
  role_active, Client, Network,
}

module _ (net : Network) (requests : List ℕ) where
  open_all-Ledger :
      (dispatch : Client → Client) (now i n : ℕ) (c : Client)
      → Ledger requests c
      → Ledger requests (open_all net dispatch now i n c)
  unfolding open_all
  open_all-Ledger dispatch now i zero c v = v
  open_all-Ledger dispatch now i (suc n) c v =
      open_all-Ledger dispatch now (i + 1) n (open_link net now i role_active true c)
        (open_link-Ledger requests net now i role_active true c v)

  drop_connecting-Ledger :
      (dispatch : Client → Client) (now : ℕ) (is : List ℕ) (c : Client)
      → Ledger requests c
      → Ledger requests (drop_connecting net dispatch now is c)
  unfolding drop_connecting
  drop_connecting-Ledger dispatch now [] c v = v
  drop_connecting-Ledger dispatch now (i ∷ is) c v = drop_connecting-Ledger dispatch now is _ (
      if-Ledger requests (is_connecting (link_at c i).state) (close_link net now no_flush i c) c
        (close_link-Ledger requests net now i no_flush c v) v)

  close_all-Ledger :
      (dispatch : Client → Client) (now : ℕ) (is : List ℕ) (c : Client)
      → Ledger requests c
      → Ledger requests (close_all net dispatch now is c)
  unfolding close_all
  close_all-Ledger dispatch now [] c v = v
  close_all-Ledger dispatch now (i ∷ is) c v =
      let n = c.counters in
      let late : Client = record c {
        counters = record n { tcp_drain_incomplete = add64 n.tcp_drain_incomplete 1 };
      } in
      let idle = is_empty (link_at c i).inflight in
      close_all-Ledger dispatch now is _ (
        close_link-Ledger requests net now i flush_write (if idle then c else late)
          (if-Ledger requests idle c late v v))

  cut_short-Ledger :
      (dispatch : Client → Client) (now : ℕ) (is : List ℕ) (c : Client)
      → Ledger requests c
      → Ledger requests (cut_short net dispatch now is c)
  unfolding cut_short
  cut_short-Ledger dispatch now [] c v = v
  cut_short-Ledger dispatch now (i ∷ is) c v =
      cut_short-Ledger dispatch now is _ (on_close-Ledger requests now i c v)

module _ (net : Network) (requests : List ℕ) where
  quiet-Ledger :
      (history : List (ℕ × Step)) (c : Client)
      → count_requests history ≡ 0
      → Ledger requests c
      → Ledger requests (run_steps net history c)
  quiet-Ledger history c e v =
      subst (λ l. Ledger l (run_steps net history c)) (handed_over-none history requests e)
        (run_steps-Ledger net requests history c v)

  drain-Ledger :
      (history : List (ℕ × Step)) (c : Client)
      → count_requests history ≡ 0
      → Ledger requests c
      → Ledger requests (drain net (run_steps net history) c)
  unfolding drain
  drain-Ledger history c e v =
      let waiting : Client = record c {
        waiting_for = waits_echoes;
        drain_timer = some ((c.drain_duration + 999_999) / 1_000_000);
      } in
      let waited : Client = record (run_steps net history waiting) {
        waiting_for = waits_nothing;
        drain_timer = none;
      } in
      if-Ledger requests (any_inflight c) waited c (quiet-Ledger history waiting e v) v

  finish-Ledger :
      (history : List (ℕ × Step)) (now later : ℕ) (c : Client)
      → count_requests history ≡ 0
      → Ledger requests c
      → Ledger requests (finish net (run_steps net history) now later c)
  unfolding finish
  finish-Ledger history now later c e v =
      let stopped : Client = record c { finished = true; slots = without_retries c.slots } in
      let settled = drop_connecting net (run_steps net history) now (links stopped.slots) stopped in
      let waited = drain net (run_steps net history) settled in
      let kept = drain-Ledger history settled e (
        drop_connecting-Ledger net requests (run_steps net history) now (links stopped.slots)
          stopped v) in
      let ended = close_all net (run_steps net history) later (links waited.slots) waited in
      if-Ledger requests c.finished c ended v (
        close_all-Ledger net requests (run_steps net history) later (links waited.slots) waited
          kept)

  terminate-Ledger :
      (history : List (ℕ × Step)) (now later : ℕ) (c : Client)
      → count_requests history ≡ 0
      → Ledger requests c
      → Ledger requests (terminate net (run_steps net history) now later c)
  unfolding terminate
  terminate-Ledger history now later c e v =
      let over : Client = record (finish net (run_steps net history) now later c) {
        measure_latencies = false;
      } in
      cut_short-Ledger net requests (run_steps net history) later (links over.slots) over
        (finish-Ledger history now later c e v)

  await_opens-Ledger :
      (history : List (ℕ × Step)) (c : Client)
      → count_requests history ≡ 0
      → Ledger requests c
      → Ledger requests (await_opens net (run_steps net history) c)
  unfolding await_opens
  await_opens-Ledger history c e v =
      let waiting : Client = record c { waiting_for = waits_opens } in
      let waited : Client = record (run_steps net history waiting) {
        waiting_for = waits_nothing;
      } in
      if-Ledger requests (c.pending_opens == 0) c waited v (quiet-Ledger history waiting e v)

  prepared-Ledger :
      (history : List (ℕ × Step)) (now : ℕ) (body : Option (List ℕ)) (c : Client)
      → count_requests history ≡ 0
      → Ledger requests c
      → Ledger requests (outcome_or c (prepare net (run_steps net history) now body c))
  unfolding prepare
  prepared-Ledger history now none c e v = v
  prepared-Ledger history now (some body) c e v =
      let dispatch = run_steps net history in
      let asked : Client = record c { message = body } in
      let opening = open_all net dispatch now 0 c.connection_count asked in
      let kept =
        await_opens-Ledger history opening e
          (open_all-Ledger net requests dispatch now 0 c.connection_count asked v) in
      elim (Bool-cases (c.expect_echo && is_empty body)) [
        | inl refused ↦ rw (refused) v
        | inr fine ↦ rw (fine) kept
      ]

  prepare-Ledger :
      (history : List (ℕ × Step)) (now : ℕ) (body : Option (List ℕ)) (c p : Client)
      → count_requests history ≡ 0
      → prepare net (run_steps net history) now body c ≡ done p
      → Ledger requests c
      → Ledger requests p
  prepare-Ledger history now body c p e made v =
      subst (λ o. Ledger requests (outcome_or c o)) made (prepared-Ledger history now body c e v)

new_client-Ledger :
    (connections max_inflight : ℕ) (expect_echo : Bool) (drain_duration timeout max_messages : ℕ)
    (c : Client)
    → tcp_benchmark_client connections max_inflight expect_echo drain_duration timeout max_messages
      ≡ done c
    → Ledger [] c
unfolding tcp_benchmark_client
new_client-Ledger connections max_inflight expect_echo drain_duration timeout max_messages c made =
    elim (Bool-cases (ltb 0 connections && ltb 0 max_inflight)) [
      | inr refused ↦ absurd (ground (arith, refused))
      | inl fine ↦
          let fresh = rw (fine) at made in
          subst (λ o. Ledger [] (outcome_or c o)) fresh
            (record { calls = refl; owed = λ k. refl; messages = refl; windows = tt })
    ]

-- A client that is made, prepared, used and terminated, whatever the network does, and whatever is
-- asked of it, except that no request comes while it waits in prepare() or finish(): every
-- completion callback was called, is posted or waits for its echo, in all as often as it was handed
-- over; the counters account for every message sent as received, lost, in flight or sent without an
-- echo; and no connection has more than max_inflight_per_connection messages in flight.
pub life-Ledger :
    (net : Network) (connections max_inflight : ℕ) (expect_echo : Bool)
    (drain_duration timeout max_messages : ℕ) (c p : Client) (body : Option (List ℕ))
    (opening used draining : List (ℕ × Step)) (prepared_at now later : ℕ)
    → tcp_benchmark_client connections max_inflight expect_echo drain_duration timeout max_messages
      ≡ done c
    → prepare net (run_steps net opening) prepared_at body c ≡ done p
    → count_requests opening ≡ 0
    → count_requests draining ≡ 0
    → Ledger
        (handed_over used [])
        (terminate net (run_steps net draining) now later (run_steps net used p))
life-Ledger net connections max_inflight expect_echo drain_duration timeout max_messages c p body
      opening used draining prepared_at now later made prepared quiet drained =
    let fresh =
      new_client-Ledger connections max_inflight expect_echo drain_duration timeout max_messages c
        made in
    let ready = prepare-Ledger net [] opening prepared_at body c p quiet prepared fresh in
    terminate-Ledger net (handed_over used []) draining now later (run_steps net used p) drained
      (run_steps-Ledger net [] used p ready)
