-- ===== src/Tcp/Ledger/Sending.antt =====
-- The books when a message is sent and when bytes come back
-- (engine/source/client/tcp_benchmark_client_impl.cc).

use sortie.Prelude.Updates.{total-update_at, total-append, is_callback}
use sortie.Prelude.{
  same_bytes, zero, suc, ℕ, ◌+◌, ◌-◌, ◌%◌, ◌<◌, ◌≡◌, refl, sym, inl, inr, Bool, true, false, not,
  ◌&&◌, ◌||◌, List, [], ◌∷◌, ◌++◌, arith, leb, if◌then◌else◌, Bool-cases, Option-cases, length,
  take, drop, length-append,
}
use sortie.Tcp.Ledger.Opening.{
  connect_next-Ledger, on_write_blocked-LedgerAt, on_write_blocked-messages_sent,
}
use sortie.Tcp.Ledger.Closing.{close_link-Ledger}
use sortie.Tcp.Slots.{
  is_some, rotation_due, is_open, schedule_retry, points_to, is_empty, is_retiring,
}
use sortie.Tcp.Connections.{connect_next, close_link}
use sortie.Prelude.Words.{add32, add64}
use sortie.Tcp.Ledger.{
  waits, set_link-LedgerAt, LedgerAt, All-update_at, in_range, in_flight-update_at,
  schedule_retry-Ledger, maybe_exit_wait_loop-Ledger, set_link-Ledger, popped-Ledger, if-Ledger,
  popped, Ledger,
}
use sortie.Tcp.Messages.{
  try_start_request, send, count_sent, enqueue, write, answer, takes_echoes, on_data, match_echoes,
  on_echo, on_match, on_echo_mismatch,
}
use sortie.Tcp.{
  no_link, flush_write, slot_at, no_flush, set_link, link_at, InflightMessage, Client, Network,
}

module _ (requests : List ℕ) (net : Network) where
  on_echo_mismatch-Ledger :
      (now i : ℕ) (c : Client) → Ledger requests c → Ledger requests (on_echo_mismatch net now i c)
  unfolding on_echo_mismatch
  on_echo_mismatch-Ledger now i c v =
      let n = c.counters in
      let at = (link_at c i).slot in
      let counted : Client = record c {
        counters = record n { tcp_echo_mismatch = add64 n.tcp_echo_mismatch 1 };
        echo_mismatch_logged = true;
      } in
      let dropped = close_link net now no_flush i counted in
      let kept = close_link-Ledger requests net now i no_flush counted v in
      let active = points_to (slot_at c at).active i in
      maybe_exit_wait_loop-Ledger requests
        (if active then schedule_retry now at dropped else dropped)
        (if-Ledger requests active (schedule_retry now at dropped) dropped
          (schedule_retry-Ledger requests now at dropped kept) kept)

  on_match-Ledger :
      (now i : ℕ) (message : InflightMessage) (rest : List InflightMessage) (c : Client)
      → (link_at c i).inflight ≡ message ∷ rest
      → Ledger requests c
      → Ledger requests (on_match net now i message rest c)
  unfolding on_match
  on_match-Ledger now i message rest c e v =
      let n = c.counters in
      let matched : Client = record (popped requests true i message rest c) {
        message_latency_statistic =
            if c.measure_latencies
            then (now - message.sent_at) ∷ c.message_latency_statistic
            else c.message_latency_statistic;
      } in
      let kept : Ledger requests matched = popped-Ledger requests true i message rest c e v in
      let last = is_retiring (link_at c i).state && is_empty rest in
      maybe_exit_wait_loop-Ledger requests
        (if last then close_link net now flush_write i matched else matched)
        (if-Ledger requests last (close_link net now flush_write i matched) matched
          (close_link-Ledger requests net now i flush_write matched kept) kept)

  answer-Ledger :
      (now i : ℕ) (queue : List InflightMessage) (c : Client)
      → (link_at c i).inflight ≡ queue
      → Ledger requests c
      → Ledger requests (answer net now i queue c)
  unfolding answer
  answer-Ledger now i [] c e v = on_echo_mismatch-Ledger now i c v
  answer-Ledger now i (message ∷ rest) c e v = on_match-Ledger now i message rest c e v

  on_echo-Ledger :
      (now i : ℕ) (bytes : List ℕ) (c : Client)
      → Ledger requests c
      → Ledger requests (on_echo net now i bytes c)
  unfolding on_echo
  on_echo-Ledger now i bytes c v =
      if-Ledger requests (same_bytes bytes c.message) (answer net now i (link_at c i).inflight c)
        (on_echo_mismatch net now i c) (answer-Ledger now i (link_at c i).inflight c refl v)
        (on_echo_mismatch-Ledger now i c v)

  match_echoes-Ledger :
      (fuel now i : ℕ) (c : Client)
      → Ledger requests c
      → Ledger requests (match_echoes net fuel now i c)
  unfolding match_echoes
  match_echoes-Ledger zero now i c v = v
  match_echoes-Ledger (suc fuel) now i c v =
      let link = link_at c i in
      let size = length c.message in
      let l = record link { received = drop size link.received } in
      let next = on_echo net now i (take size link.received) (set_link i l c) in
      let kept =
        on_echo-Ledger now i (take size link.received) (set_link i l c)
          (set_link-Ledger requests i l c refl v) in
      if-Ledger requests (leb size (length link.received) && takes_echoes link.state)
        (match_echoes net fuel now i next) c (match_echoes-Ledger fuel now i next kept) v

  pub on_data-Ledger :
      (now i : ℕ) (bytes : List ℕ) (c : Client)
      → Ledger requests c
      → Ledger requests (on_data net now i bytes c)
  unfolding on_data
  on_data-Ledger now i bytes c v =
      let link = link_at c i in
      let received = link.received ++ bytes in
      let l = record link { received = received } in
      if-Ledger requests (c.expect_echo && takes_echoes link.state)
        (match_echoes net (length received) now i (set_link i l c)) c
        (match_echoes-Ledger (length received) now i (set_link i l c)
          (set_link-Ledger requests i l c refl v))
        v

  write-LedgerAt :
      (sent i : ℕ) (c : Client) → LedgerAt requests sent c → LedgerAt requests sent (write net i c)
  unfolding write
  write-LedgerAt sent i c v = elim (Bool-cases (net.write_blocks c i)) [
    | inl blocks ↦ rw (blocks) (on_write_blocked-LedgerAt requests sent i true c v)
    | inr takes ↦ rw (takes) v
  ]

  write-messages_sent :
      (i : ℕ) (c : Client)
      → (write net i c).counters.tcp_messages_sent ≡ c.counters.tcp_messages_sent
  unfolding write
  write-messages_sent i c = elim (Bool-cases (net.write_blocks c i)) [
    | inl blocks ↦ rw (blocks) (on_write_blocked-messages_sent requests i true c)
    | inr takes ↦ rw (takes) refl
  ]

-- One more message in flight, and one more sent.
enqueue-LedgerAt :
    (requests : List ℕ) (net : Network) (now i callback : ℕ) (c : Client)
    → is_open (link_at c i).state ≡ true
    → length (link_at c i).inflight < c.max_inflight_per_connection
    → Ledger requests c
    → LedgerAt
        (callback ∷ requests)
        (add64 c.counters.tcp_messages_sent 1)
        (enqueue net true now i callback c)
unfolding enqueue
enqueue-LedgerAt requests net now i callback c up room v =
    let link = link_at c i in
    let message : InflightMessage = record { sent_at = now; completion_callback = callback } in
    let l = record link { inflight = link.inflight ++ message ∷ [] } in
    let one_more : length l.inflight ≡ length link.inflight + 1 =
      length-append link.inflight (message ∷ []) in
    let flight = in_flight-update_at i l c.links (inr (in_range i c.links up)) in
    record {
      calls = omega (arith, v.calls, flight, one_more);
      owed = λ k.
          let mine : waits k l ≡ waits k link + is_callback k callback =
            total-append (λ m. is_callback k m.completion_callback) link.inflight message in
          omega (
            arith,
            v.owed k,
            mine,
            total-update_at (waits k) no_link i l c.links refl (inr (in_range i c.links up)),
          );
      messages = omega (arith, v.messages, flight, one_more);
      windows =
          All-update_at c.max_inflight_per_connection i l c.links v.windows
            (omega (arith, one_more, room));
    }

counted-LedgerAt :
    (requests : List ℕ) (net : Network) (i callback sent : ℕ) (c : Client)
    → sent ≡ c.counters.tcp_messages_sent
    → LedgerAt requests (add64 sent 1) c
    → Ledger requests (count_sent net true i callback c)
unfolding count_sent
counted-LedgerAt requests net i callback sent c e v =
    let l = record (link_at c i) { sent = add64 (link_at c i).sent 1 } in
    set_link-LedgerAt requests (add64 c.counters.tcp_messages_sent 1) i l c refl (rw (sym e) v)

unechoed-Ledger :
    (requests : List ℕ) (net : Network) (i callback : ℕ) (c : Client)
    → Ledger requests c
    → Ledger (callback ∷ requests) (count_sent net false i callback c)
unfolding count_sent
unechoed-Ledger requests net i callback c v =
    let l = record (link_at c i) { sent = add64 (link_at c i).sent 1 } in
    let kept = set_link-Ledger requests i l c refl v in
    record {
      calls = omega (arith, kept.calls);
      owed = λ k. omega (arith, kept.owed k);
      messages = omega (arith, kept.messages);
      windows = kept.windows;
    }

sent-Ledger :
    (requests : List ℕ) (net : Network) (expect_echo : Bool) (now i callback : ℕ) (c : Client)
    → is_open (link_at c i).state ≡ true
    → length (link_at c i).inflight < c.max_inflight_per_connection
    → Ledger requests c
    → Ledger (callback ∷ requests) (
        count_sent net expect_echo i callback
          (write net i (enqueue net expect_echo now i callback c)))
unfolding enqueue
sent-Ledger requests net true now i callback c up room v =
    let queued = enqueue net true now i callback c in
    let sent = add64 c.counters.tcp_messages_sent 1 in
    counted-LedgerAt (callback ∷ requests) net i callback c.counters.tcp_messages_sent
      (write net i queued) (sym (write-messages_sent requests net i queued))
      (write-LedgerAt (callback ∷ requests) net sent i queued
        (enqueue-LedgerAt requests net now i callback c up room v))
sent-Ledger requests net false now i callback c up room v =
    let kept = write-LedgerAt requests net c.counters.tcp_messages_sent i c v in
    unechoed-Ledger requests net i callback (write net i c)
      (rw (write-messages_sent requests net i c) kept)

send-Ledger :
    (requests : List ℕ) (net : Network) (now at i callback : ℕ) (c : Client)
    → is_open (link_at c i).state ≡ true
    → length (link_at c i).inflight < c.max_inflight_per_connection
    → Ledger requests c
    → Ledger (callback ∷ requests) (send net now at i callback c)
unfolding send
send-Ledger requests net now at i callback c up room v =
    let sent =
      count_sent net c.expect_echo i callback
        (write net i (enqueue net c.expect_echo now i callback c)) in
    let kept = sent-Ledger requests net c.expect_echo now i callback c up room v in
    let rotates =
      rotation_due sent (link_at sent i) && not (is_some (slot_at sent at).retry_timer) in
    if-Ledger (callback ∷ requests) rotates (connect_next net now at sent) sent
      (connect_next-Ledger (callback ∷ requests) net now at sent kept) kept

-- A message that is dropped: its callback is posted as a failure.
dropped-Ledger :
    (requests : List ℕ) (callback : ℕ) (c : Client)
    → Ledger requests c
    → Ledger (callback ∷ requests) (record c { posted = (callback, false) ∷ c.posted })
dropped-Ledger requests callback c v = record {
  calls = omega (arith, v.calls);
  owed = λ k. omega (arith, v.owed k);
  messages = omega (arith, v.messages);
  windows = v.windows;
}

-- A request is entered into the books once, whether it is sent or dropped.
pub try_start_request-Ledger :
    (requests : List ℕ) (net : Network) (now callback : ℕ) (c : Client)
    → Ledger requests c
    → Ledger (callback ∷ requests) (try_start_request net now callback c)
unfolding try_start_request
try_start_request-Ledger requests net now callback c v =
    let at = c.next_slot in
    let next : Client = record c { next_slot = add32 c.next_slot 1 % c.connection_count } in
    let dropped = dropped-Ledger requests callback c v in
    elim (Option-cases (slot_at c at).active) [
      | inl gone ↦ rw (gone, try_start_request) dropped
      | inr (i, held) ↦ elim (Bool-cases (is_open (link_at c i).state)) [
        | inr down ↦ rw (held, try_start_request, down) dropped
        | inl up ↦
            let full =
              (link_at c i).write_blocked
              || leb c.max_inflight_per_connection (length (link_at c i).inflight) in
            elim (Bool-cases full) [
              | inl blocked ↦ rw (held, try_start_request, up, blocked) dropped
              | inr room ↦
                  rw (held, try_start_request, up, room)
                    (send-Ledger requests net now at i callback next up (ground (arith, room)) v)
            ]
      ]
    ]
