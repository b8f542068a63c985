-- ===== src/Tcp/Ledger/Opening.antt =====
-- The books when a connection is opened, and when a timer fires
-- (engine/source/client/tcp_benchmark_client_impl.cc).

use sortie.Prelude.Updates.{total-append}
use sortie.Prelude.{
  ℕ, ◌+◌, ◌≡◌, refl, ap, inl, inr, Bool, false, not, ◌&&◌, none, some, List, [], ◌∷◌, ◌++◌, arith,
  if◌then◌else◌, Bool-cases, Option-cases, length, All,
}
use sortie.Tcp.Slots.{schedule_retry, is_some}
use sortie.Prelude.Words.{add64, add32}
use sortie.Tcp.Ledger.Closing.{close_link-Ledger, on_event-Ledger}
use sortie.Tcp.Ledger.{
  waits_in, waits, set_link-LedgerAt, LedgerAt, maybe_exit_wait_loop-Ledger, schedule_retry-Ledger,
  if-Ledger, set_link-Ledger, Ledger, WithinWindow, in_flight,
}
use sortie.Tcp.Connections.{
  close_link, timed_out, with_link, on_timer, on_retry, connect_next, open_link, connect,
  on_write_blocked,
}
use sortie.Tcp.{
  closed, opened, retiring, no_flush, State, slot_at, role_standby, set_slot, set_link, role_active,
  connecting, link_at, Role, Client, Network, Link,
}

in_flight-append :
    (ls : List Link) (l : Link) → in_flight (ls ++ l ∷ []) ≡ in_flight ls + length l.inflight
in_flight-append [] l = omega arith
in_flight-append (x ∷ ls) l = omega (arith, in_flight-append ls l)

All-append :
    (w : ℕ) (ls : List Link) (l : Link)
    → All (WithinWindow w) ls
    → WithinWindow w l
    → All (WithinWindow w) (ls ++ l ∷ [])
All-append w [] l v h = (h, tt)
All-append w (x ∷ ls) l v h = (v.0, All-append w ls l v.1 h)

module _ (requests : List ℕ) where
  new_link-Ledger :
      (l : Link) (c : Client)
      → l.inflight ≡ []
      → Ledger requests c
      → Ledger requests (record c { links = c.links ++ l ∷ [] })
  new_link-Ledger l c e v =
      let none_yet : length l.inflight ≡ 0 = ap length e in
      let flight = in_flight-append c.links l in
      record {
        calls = omega (arith, v.calls, flight, none_yet);
        owed = λ k. omega (arith, v.owed k, total-append (waits k) c.links l, ap (waits_in k) e);
        messages = omega (arith, v.messages, flight, none_yet);
        windows = All-append c.max_inflight_per_connection c.links l v.windows (omega arith);
      }

  pub on_write_blocked-LedgerAt :
      (sent i : ℕ) (blocked : Bool) (c : Client)
      → LedgerAt requests sent c
      → LedgerAt requests sent (on_write_blocked i blocked c)
  unfolding on_write_blocked
  on_write_blocked-LedgerAt sent i blocked c v =
      let l = record (link_at c i) { write_blocked = blocked } in
      let kept = set_link-LedgerAt requests sent i l c refl v in
      elim (Bool-cases (blocked && not (link_at c i).write_blocked)) [
        | inl first ↦ rw (first) kept
        | inr again ↦ rw (again) kept
      ]

  pub on_write_blocked-messages_sent :
      (i : ℕ) (blocked : Bool) (c : Client)
      → (on_write_blocked i blocked c).counters.tcp_messages_sent ≡ c.counters.tcp_messages_sent
  unfolding on_write_blocked
  on_write_blocked-messages_sent i blocked c = ground arith

  module _ (net : Network) where
    connect-Ledger :
        (now i : ℕ) (c : Client) → Ledger requests c → Ledger requests (connect net now i c)
    unfolding connect
    connect-Ledger now i c v = elim (Option-cases (net.connect_raises c i)) [
      | inl quiet ↦ rw (quiet, connect) v
      | inr (event, raised) ↦ rw (raised, connect) (on_event-Ledger requests net now i event c v)
    ]

    pub open_link-Ledger :
        (now at : ℕ) (role : Role) (initial : Bool) (c : Client)
        → Ledger requests c
        → Ledger requests (open_link net now at role initial c)
    unfolding open_link
    open_link-Ledger now at role initial c v =
        let n = c.counters in
        let i = length c.links in
        let link : Link = record {
          slot = at;
          state = connecting;
          initial = initial;
          initial_pending = initial;
          inflight = [];
          received = [];
          write_blocked = false;
          sent = 0;
          connect_started = now;
          timer = some c.timeout;
        } in
        let placed : Client = record (set_slot at (with_link role i (slot_at c at)) c) {
          links = c.links ++ link ∷ [];
          pending_opens = if initial then add32 c.pending_opens 1 else c.pending_opens;
        } in
        let failed : Client = record c {
          counters = record n { tcp_connect_failures = add64 n.tcp_connect_failures 1 };
        } in
        if-Ledger requests (net.has_connection c at) (connect net now i placed)
          (schedule_retry now at failed)
          (connect-Ledger now i placed (new_link-Ledger link c refl v))
          (schedule_retry-Ledger requests now at failed v)

    pub connect_next-Ledger :
        (now at : ℕ) (c : Client) → Ledger requests c → Ledger requests (connect_next net now at c)
    unfolding connect_next
    connect_next-Ledger now at c v =
        let as_active = open_link-Ledger now at role_active false c v in
        let as_standby = open_link-Ledger now at role_standby false c v in
        elim (Bool-cases c.finished) [
          | inl over ↦ rw (over) v
          | inr live ↦ elim (Option-cases (slot_at c at).active) [
            | inl gone ↦
                rw (live, gone, connect_next)
                  (if-Ledger requests (is_some (slot_at c at).standby) c
                    (open_link net now at role_active false c) v as_active)
            | inr (i, held) ↦
                rw (live, held, connect_next)
                  (if-Ledger requests _ (open_link net now at role_standby false c) c as_standby v)
          ]
        ]

    pub on_retry-Ledger :
        (now at : ℕ) (c : Client) → Ledger requests c → Ledger requests (on_retry net now at c)
    unfolding on_retry
    on_retry-Ledger now at c v = connect_next-Ledger now at _ v

    timed_out-Ledger :
        (now i : ℕ) (state : State) (c : Client)
        → Ledger requests c
        → Ledger requests (timed_out net now i state c)
    unfolding timed_out
    timed_out-Ledger now i connecting c v =
        let n = c.counters in
        let failed : Client = record c {
          counters = record n { tcp_connect_failures = add64 n.tcp_connect_failures 1 };
        } in
        let at = (link_at c i).slot in
        let dropped = close_link net now no_flush i failed in
        maybe_exit_wait_loop-Ledger requests (schedule_retry now at dropped) (
          schedule_retry-Ledger requests now at dropped
            (close_link-Ledger requests net now i no_flush failed v))
    timed_out-Ledger now i retiring c v = close_link-Ledger requests net now i no_flush c v
    timed_out-Ledger now i opened c v = v
    timed_out-Ledger now i closed c v = v

    pub on_timer-Ledger :
        (now i : ℕ) (c : Client) → Ledger requests c → Ledger requests (on_timer net now i c)
    unfolding on_timer
    on_timer-Ledger now i c v =
        timed_out-Ledger now i (link_at c i).state
          (set_link i (record (link_at c i) { timer = none }) c)
          (set_link-Ledger requests i (record (link_at c i) { timer = none }) c refl v)
