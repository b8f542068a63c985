-- ===== src/Tcp/Messages.antt =====
-- What a TcpBenchmarkClientImpl sends, and how it matches what comes back
-- (engine/source/client/tcp_benchmark_client_impl.cc).

use sortie.Prelude.Words.{add64, add32}
use sortie.Tcp.Slots.{
  is_open, is_some, is_empty, rotation_due, is_retiring, points_to, maybe_exit_wait_loop,
  schedule_retry,
}
use sortie.Tcp.Connections.{connect_next, on_write_blocked, close_link}
use sortie.Tcp.{
  flush_write, slot_at, set_link, InflightMessage, no_flush, retiring, link_at, opened, Client,
  Network, State,
}
use sortie.Prelude.{
  same_bytes, zero, suc, ℕ, ◌-◌, ◌%◌, Bool, true, false, not, ◌&&◌, ◌||◌, none, some, List, [], ◌∷◌,
  ◌++◌, leb, if◌then◌else◌, length, take, drop,
}

-- The check that starts the loop of onData(), and one that it makes in between.
abbrev pub takes_echoes : State → Bool
takes_echoes opened = true
takes_echoes retiring = true
takes_echoes _ = false

module _ (net : Network) where
  unfoldable pub on_echo_mismatch : ℕ → ℕ → Client → Client
  unfolding close_link schedule_retry maybe_exit_wait_loop
  on_echo_mismatch now i c =
      let n = c.counters in
      let at = (link_at c i).slot in
      let shut = close_link net now no_flush i (record c {
        counters = record n { tcp_echo_mismatch = add64 n.tcp_echo_mismatch 1 };
        echo_mismatch_logged = true;
      }) in
      maybe_exit_wait_loop
        (if points_to (slot_at c at).active i then schedule_retry now at shut else shut)

  -- onEcho() on the oldest message in flight, whose bytes came back.
  unfoldable pub on_match : ℕ → ℕ → InflightMessage → List InflightMessage → Client → Client
  unfolding close_link maybe_exit_wait_loop
  on_match now i message rest c =
      let n = c.counters in
      let matched = record (set_link i (record (link_at c i) { inflight = rest }) c) {
        counters = record n { tcp_messages_received = add64 n.tcp_messages_received 1 };
        message_latency_statistic =
            if c.measure_latencies
            then (now - message.sent_at) ∷ c.message_latency_statistic
            else c.message_latency_statistic;
        completed = (message.completion_callback, true) ∷ c.completed;
      } in
      maybe_exit_wait_loop (
        if is_retiring (link_at c i).state && is_empty rest
        then close_link net now flush_write i matched
        else matched)

  -- onEcho() for bytes that are the message, by what is in flight.
  unfoldable pub answer : ℕ → ℕ → List InflightMessage → Client → Client
  unfolding on_match on_echo_mismatch
  answer now i [] c = on_echo_mismatch now i c
  answer now i (message ∷ rest) c = on_match now i message rest c

  unfoldable pub on_echo : ℕ → ℕ → List ℕ → Client → Client
  unfolding answer
  on_echo now i bytes c =
      if same_bytes bytes c.message
      then answer now i (link_at c i).inflight c
      else on_echo_mismatch now i c

  -- The loop of onData(). Each round takes a message's worth of bytes; the message is not empty,
  -- so the number of bytes received is fuel enough.
  unfoldable pub match_echoes : ℕ → ℕ → ℕ → Client → Client
  unfolding on_echo
  match_echoes zero now i c = c
  match_echoes (suc fuel) now i c =
      let link = link_at c i in
      let size = length c.message in
      let rest = match_echoes fuel now i (
        on_echo now i (take size link.received)
          (set_link i (record link { received = drop size link.received }) c)) in
      if leb size (length link.received) && takes_echoes link.state then rest else c

  unfoldable pub on_data : ℕ → ℕ → List ℕ → Client → Client
  unfolding match_echoes
  on_data now i bytes c =
      let link = link_at c i in
      let received = link.received ++ bytes in
      if c.expect_echo && takes_echoes link.state
      then match_echoes (length received) now i (set_link i (record link { received = received }) c)
      else c

  -- connection->write() may find the connection above its high watermark.
  unfoldable pub write : ℕ → Client → Client
  unfolding on_write_blocked
  write i c = if net.write_blocks c i then on_write_blocked i true c else c

  -- With the echo expected a message is in flight until that comes; without, it completes soon
  -- after the write.
  unfoldable pub enqueue : Bool → ℕ → ℕ → ℕ → Client → Client
  enqueue true now i callback c =
      let message : InflightMessage = record { sent_at = now; completion_callback = callback } in
      let link = link_at c i in
      set_link i (record link { inflight = link.inflight ++ message ∷ [] }) c
  enqueue false now i callback c = c

  unfoldable pub count_sent : Bool → ℕ → ℕ → Client → Client
  count_sent expect_echo i callback c =
      let n = c.counters in
      let link = link_at c i in
      record (set_link i (record link { sent = add64 link.sent 1 }) c) {
        counters = record n { tcp_messages_sent = add64 n.tcp_messages_sent 1 };
        posted = if expect_echo then c.posted else (callback, true) ∷ c.posted;
      }

  -- tryStartRequest() on a slot whose active connection can take the message.
  unfoldable pub send : ℕ → ℕ → ℕ → ℕ → Client → Client
  unfolding write connect_next enqueue count_sent
  send now at i callback c =
      let sent =
        count_sent c.expect_echo i callback (write i (enqueue c.expect_echo now i callback c)) in
      if rotation_due sent (link_at sent i) && not (is_some (slot_at sent at).retry_timer)
      then connect_next net now at sent
      else sent

  -- tryStartRequest(); it returns true.
  unfoldable pub try_start_request : ℕ → ℕ → Client → Client
  unfolding send
  try_start_request now callback c =
      let at = c.next_slot in
      let next = record c { next_slot = add32 c.next_slot 1 % c.connection_count } in
      let n = c.counters in
      let unavailable = record next {
        counters = record n { tcp_unavailable = add64 n.tcp_unavailable 1 };
        posted = (callback, false) ∷ c.posted;
      } in
      let deferred = record next {
        counters = record n { tcp_deferred = add64 n.tcp_deferred 1 };
        posted = (callback, false) ∷ c.posted;
      } in
      elim (slot_at c at).active [
        | none ↦ unavailable
        | some i ↦
            if not (is_open (link_at c i).state)
            then unavailable
            else if (link_at c i).write_blocked
                || leb c.max_inflight_per_connection (length (link_at c i).inflight)
            then deferred
            else send now at i callback next
      ]
