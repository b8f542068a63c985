-- ===== src/Tcp/Connections.antt =====
-- How a TcpBenchmarkClientImpl opens, replaces and closes its connections
-- (engine/source/client/tcp_benchmark_client_impl.cc).

use sortie.Prelude.{
  ℕ, ◌-◌, Bool, true, false, not, ◌&&◌, none, some, [], ◌∷◌, ◌++◌, if◌then◌else◌, length,
}
use sortie.Prelude.Words.{add32, add64}
use sortie.Tcp.Slots.{
  is_empty, rotation_due, points_to, is_some, is_open, is_connecting, is_closed,
  maybe_exit_wait_loop, schedule_retry, initial_attempt_done, release, complete_inflight,
}
use sortie.Tcp.{
  local_close, remote_close, connected_zero_rtt, flush_write, retiring, no_flush, connected,
  connecting, opened, closed, role_standby, set_slot, Link, slot_at, link_at, set_link, role_active,
  Slot, ConnectionEvent, Client, CloseType, Counters, Network, State, Role,
}

abbrev pub is_role_in_use : Role → Bool
is_role_in_use role_active = true
is_role_in_use role_standby = true
is_role_in_use _ = false

-- What a close event counts, by the state that the link was in.
unfoldable pub count_close : State → Counters → Counters
count_close connecting n = record n { tcp_connect_failures = add64 n.tcp_connect_failures 1 }
count_close opened n = record n { tcp_connection_closed = add64 n.tcp_connection_closed 1 }
count_close retiring n = record n { tcp_connection_closed = add64 n.tcp_connection_closed 1 }
count_close closed n = n

-- Closed, with its timer off, its first attempt over and what it had in flight lost.
unfoldable pub shut : ℕ → Client → Client
unfolding complete_inflight initial_attempt_done
shut i c =
    complete_inflight false i (
      initial_attempt_done i (set_link i (record (link_at c i) { state = closed; timer = none }) c))

-- onEvent() for RemoteClose and LocalClose.
unfoldable pub on_close : ℕ → ℕ → Client → Client
unfolding count_close release schedule_retry maybe_exit_wait_loop
on_close now i c =
    let previous = (link_at c i).state in
    let ended =
      initial_attempt_done i
        (set_link i (record (link_at c i) { state = closed; timer = none }) c) in
    let counted = record ended { counters = count_close previous ended.counters } in
    let (released, role) = release i (complete_inflight false i counted) in
    maybe_exit_wait_loop (
      if not (is_closed previous) && is_role_in_use role
      then schedule_retry now (link_at released i).slot released
      else released)

abbrev pub with_link : Role → ℕ → Slot → Slot
with_link role_standby i slot = record slot { standby = some i }
with_link _ i slot = record slot { active = some i }

unfoldable pub on_write_blocked : ℕ → Bool → Client → Client
on_write_blocked i blocked c =
    let n = c.counters in
    record (set_link i (record (link_at c i) { write_blocked = blocked }) c) {
      counters =
          if blocked && not (link_at c i).write_blocked
          then record n { tcp_write_blocked = add64 n.tcp_write_blocked 1 }
          else n;
    }

module _ (net : Network) where
  -- closeLink(): a close without a flush raises the close event before it returns.
  unfoldable pub close_link : ℕ → CloseType → ℕ → Client → Client
  unfolding shut on_close
  close_link now type i c = if is_closed (link_at c i).state then c else elim type [
    | no_flush ↦ on_close now i (shut i c)
    | flush_write ↦
        let closing = shut i c in if net.flushed closing i then on_close now i closing else closing
  ]

  -- The part of promote() that is for the connection which is replaced.
  unfoldable pub retire : ℕ → ℕ → Client → Client
  unfolding close_link
  retire now i c =
      let link = link_at c i in
      if not (is_open link.state)
      then c
      else let leaving = set_link i (record link { state = retiring }) c in
        if is_empty link.inflight
        then close_link now flush_write i leaving
        else set_link i (record link { state = retiring; timer = some c.timeout }) c

  unfoldable pub promote : ℕ → ℕ → Client → Client
  unfolding retire
  promote now at c =
      let slot = slot_at c at in
      let n = c.counters in
      elim slot.active [
        | none ↦
            record (set_slot at
              (record slot { active = slot.standby; standby = none; retry_timer = none }) c) {
                counters = record n { tcp_reconnects = add64 n.tcp_reconnects 1 };
              }
        | some retired ↦
            retire now retired
              (record (set_slot at
                (record slot {
                  active = slot.standby;
                  standby = none;
                  retry_timer = none;
                  retiring = slot.retiring ++ retired ∷ [];
                })
                c) {
                  counters = record n {
                    tcp_connections_rotated = add64 n.tcp_connections_rotated 1;
                  };
                })
      ]

  -- onEvent() for Connected, on a link that is connecting.
  unfoldable pub on_connected : ℕ → ℕ → Client → Client
  unfolding promote initial_attempt_done maybe_exit_wait_loop
  on_connected now i c =
      let link = link_at c i in
      let n = c.counters in
      let ready =
        initial_attempt_done i
          (record (set_link i (record link { state = opened; timer = none }) c) {
            counters = record n { tcp_connections_opened = add64 n.tcp_connections_opened 1 };
            connect_latency_statistic = (now - link.connect_started) ∷ c.connect_latency_statistic;
          }) in
      let m = ready.counters in
      maybe_exit_wait_loop (
        if points_to (slot_at ready link.slot).standby i
        then promote now link.slot ready
        else if link.initial
        then ready
        else record ready { counters = record m { tcp_reconnects = add64 m.tcp_reconnects 1 } })

  unfoldable pub on_event : ℕ → ℕ → ConnectionEvent → Client → Client
  unfolding on_connected on_close
  on_event now i connected c = if is_connecting (link_at c i).state then on_connected now i c else c
  on_event now i connected_zero_rtt c = c
  on_event now i remote_close c = on_close now i c
  on_event now i local_close c = on_close now i c

  -- What connect() raises before it returns.
  unfoldable pub connect : ℕ → ℕ → Client → Client
  unfolding on_event
  connect now i c = elim (net.connect_raises c i) [ none ↦ c | some event ↦ on_event now i event c ]

  unfoldable pub open_link : ℕ → ℕ → Role → Bool → Client → Client
  unfolding connect schedule_retry
  open_link now slot_index role initial c =
      let n = c.counters in
      let i = length c.links in
      let link : Link = record {
        slot = slot_index;
        state = connecting;
        initial = initial;
        initial_pending = initial;
        inflight = [];
        received = [];
        write_blocked = false;
        sent = 0;
        connect_started = now;
        timer = some c.timeout;
      } in
      if net.has_connection c slot_index
      then connect now i (record (set_slot slot_index (with_link role i (slot_at c slot_index)) c) {
        links = c.links ++ link ∷ [];
        pending_opens = if initial then add32 c.pending_opens 1 else c.pending_opens;
      })
      else schedule_retry now slot_index (record c {
        counters = record n { tcp_connect_failures = add64 n.tcp_connect_failures 1 };
      })

  unfoldable pub connect_next : ℕ → ℕ → Client → Client
  unfolding open_link
  connect_next now slot_index c =
      let slot = slot_at c slot_index in
      if c.finished then c else elim slot.active [
        | none ↦ if is_some slot.standby then c else open_link now slot_index role_active false c
        | some i ↦
            if not (is_some slot.standby)
              && (is_open (link_at c i).state && rotation_due c (link_at c i))
            then open_link now slot_index role_standby false c
            else c
      ]

  -- The retry timer's callback, which finds the timer no longer armed.
  unfoldable pub on_retry : ℕ → ℕ → Client → Client
  unfolding connect_next
  on_retry now slot_index c = connect_next now slot_index (
      set_slot slot_index
        (record (slot_at c slot_index) { retry_timer = none; last_retry = some now }) c)

  -- onTimer() on a link in that state.
  unfoldable pub timed_out : ℕ → ℕ → State → Client → Client
  unfolding close_link schedule_retry maybe_exit_wait_loop
  timed_out now i connecting c =
      let n = c.counters in
      maybe_exit_wait_loop (
        schedule_retry now (link_at c i).slot (
          close_link now no_flush i (record c {
            counters = record n { tcp_connect_failures = add64 n.tcp_connect_failures 1 };
          })))
  timed_out now i retiring c = close_link now no_flush i c
  timed_out now i opened c = c
  timed_out now i closed c = c

  -- The link's timer's callback, which finds the timer no longer armed.
  unfoldable pub on_timer : ℕ → ℕ → Client → Client
  unfolding timed_out
  on_timer now i c =
      timed_out now i (link_at c i).state (set_link i (record (link_at c i) { timer = none }) c)
