-- ===== src/Tcp/Ledger/Closing.antt =====
-- The books when a connection closes or is replaced
-- (engine/source/client/tcp_benchmark_client_impl.cc).

use sortie.Prelude.Words.{add64}
use sortie.Tcp.Slots.{
  is_connecting, points_to, schedule_retry, complete_inflight, release, is_empty, is_open,
  is_closed, initial_attempt_done,
}
use sortie.Tcp.Ledger.{
  if-Ledger, schedule_retry-Ledger, maybe_exit_wait_loop-Ledger, release-Ledger,
  initial_attempt_done-Ledger, set_link-Ledger, complete_inflight-Ledger, Ledger,
}
use sortie.Tcp.Connections.{
  on_event, is_role_in_use, on_connected, promote, retire, close_link, on_close, count_close, shut,
}
use sortie.Tcp.{
  local_close, remote_close, connected_zero_rtt, connected, ConnectionEvent, no_flush, flush_write,
  closed, opened, retiring, set_link, connecting, slot_at, CloseType, link_at, State, Network,
  Client,
}
use sortie.Prelude.{
  List, ℕ, ◌-◌, refl, inl, inr, false, not, ◌&&◌, none, some, ◌∷◌, if◌then◌else◌, Bool-cases,
  Option-cases,
}

module _ (requests : List ℕ) where
  pub ended-Ledger :
      (i : ℕ) (c : Client)
      → Ledger requests c
      → Ledger requests (
          initial_attempt_done i
            (set_link i (record (link_at c i) { state = closed; timer = none }) c))
  ended-Ledger i c v =
      let l = record (link_at c i) { state = closed; timer = none } in
      initial_attempt_done-Ledger requests i (set_link i l c)
        (set_link-Ledger requests i l c refl v)

  pub shut-Ledger : (i : ℕ) (c : Client) → Ledger requests c → Ledger requests (shut i c)
  unfolding shut
  shut-Ledger i c v = complete_inflight-Ledger requests i _ (ended-Ledger i c v)

  count_close-Ledger :
      (previous : State) (c : Client)
      → Ledger requests c
      → Ledger requests (record c { counters = count_close previous c.counters })
  unfolding count_close
  count_close-Ledger connecting c v = v
  count_close-Ledger opened c v = v
  count_close-Ledger retiring c v = v
  count_close-Ledger closed c v = v

  pub on_close-Ledger :
      (now i : ℕ) (c : Client) → Ledger requests c → Ledger requests (on_close now i c)
  unfolding on_close
  on_close-Ledger now i c v =
      let previous = (link_at c i).state in
      let ended =
        initial_attempt_done i
          (set_link i (record (link_at c i) { state = closed; timer = none }) c) in
      let counted = record ended { counters = count_close previous ended.counters } in
      let lost =
        complete_inflight-Ledger requests i counted
          (count_close-Ledger previous ended (ended-Ledger i c v)) in
      let (released, role) = release i (complete_inflight false i counted) in
      let let_go = release-Ledger requests i (complete_inflight false i counted) lost in
      let at = (link_at released i).slot in
      maybe_exit_wait_loop-Ledger requests
        (if not (is_closed previous) && is_role_in_use role
          then schedule_retry now at released
          else released)
        (if-Ledger requests (not (is_closed previous) && is_role_in_use role)
          (schedule_retry now at released) released
          (schedule_retry-Ledger requests now at released let_go) let_go)

  module _ (net : Network) where
    pub close_link-Ledger :
        (now i : ℕ) (type : CloseType) (c : Client)
        → Ledger requests c
        → Ledger requests (close_link net now type i c)
    unfolding close_link
    close_link-Ledger now i no_flush c v =
        let closed_now = on_close-Ledger now i (shut i c) (shut-Ledger i c v) in
        elim (Bool-cases (is_closed (link_at c i).state)) [
          | inl over ↦ rw (over) v
          | inr live ↦ rw (live) closed_now
        ]
    close_link-Ledger now i flush_write c v =
        let closing = shut-Ledger i c v in
        let closed_now = on_close-Ledger now i (shut i c) closing in
        elim (Bool-cases (is_closed (link_at c i).state)) [
          | inl over ↦ rw (over) v
          | inr live ↦ elim (Bool-cases (net.flushed (shut i c) i)) [
            | inl at_once ↦ rw (live, at_once) closed_now
            | inr pending ↦ rw (live, pending) closing
          ]
        ]

    retire-Ledger :
        (now i : ℕ) (c : Client) → Ledger requests c → Ledger requests (retire net now i c)
    unfolding retire
    retire-Ledger now i c v =
        let leaving =
          set_link-Ledger requests i (record (link_at c i) { state = retiring }) c refl v in
        let waits =
          set_link-Ledger requests i
            (record (link_at c i) { state = retiring; timer = some c.timeout }) c refl v in
        let left = close_link-Ledger now i flush_write _ leaving in
        elim (Bool-cases (not (is_open (link_at c i).state))) [
          | inl over ↦ rw (over) v
          | inr live ↦ elim (Bool-cases (is_empty (link_at c i).inflight)) [
            | inl idle ↦ rw (live, idle) left
            | inr busy ↦ rw (live, busy) waits
          ]
        ]

    promote-Ledger :
        (now at : ℕ) (c : Client) → Ledger requests c → Ledger requests (promote net now at c)
    unfolding promote
    promote-Ledger now at c v = elim (Option-cases (slot_at c at).active) [
      | inl gone ↦ rw (gone, promote) v
      | inr (i, held) ↦ rw (held, promote) (retire-Ledger now i _ v)
    ]

    pub on_connected-Ledger :
        (now i : ℕ) (c : Client) → Ledger requests c → Ledger requests (on_connected net now i c)
    unfolding on_connected
    on_connected-Ledger now i c v =
        let link = link_at c i in
        let n = c.counters in
        let up : Client = record (set_link i (record link { state = opened; timer = none }) c) {
          counters = record n { tcp_connections_opened = add64 n.tcp_connections_opened 1 };
          connect_latency_statistic = (now - link.connect_started) ∷ c.connect_latency_statistic;
        } in
        let ready = initial_attempt_done i up in
        let kept =
          initial_attempt_done-Ledger requests i up
            (set_link-Ledger requests i (record link { state = opened; timer = none }) c refl v) in
        let m = ready.counters in
        let again : Client = record ready {
          counters = record m { tcp_reconnects = add64 m.tcp_reconnects 1 };
        } in
        let promotes = points_to (slot_at ready link.slot).standby i in
        maybe_exit_wait_loop-Ledger requests
          (if promotes
            then promote net now link.slot ready
            else if link.initial
            then ready
            else again)
          (if-Ledger requests promotes (promote net now link.slot ready)
            (if link.initial then ready else again) (promote-Ledger now link.slot ready kept)
            (if-Ledger requests link.initial ready again kept kept))

    pub on_event-Ledger :
        (now i : ℕ) (event : ConnectionEvent) (c : Client)
        → Ledger requests c
        → Ledger requests (on_event net now i event c)
    unfolding on_event
    on_event-Ledger now i connected c v =
        if-Ledger requests (is_connecting (link_at c i).state) (on_connected net now i c) c
          (on_connected-Ledger now i c v) v
    on_event-Ledger now i connected_zero_rtt c v = v
    on_event-Ledger now i remote_close c v = on_close-Ledger now i c v
    on_event-Ledger now i local_close c v = on_close-Ledger now i c v
