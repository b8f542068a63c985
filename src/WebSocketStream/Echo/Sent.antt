-- ===== src/WebSocketStream/Echo/Sent.antt =====
-- A message that a WebSocketStreamBenchmarkClientImpl sends, and its echo
-- (engine/source/client/websocket_stream_client_impl.cc).
use sortie.Prelude.{
  ℕ, ◌-◌, ◌≡◌, refl, ap, ◌∙◌, inl, inr, Bool, true, false, none, some, List, [], ◌∷◌, ◌++◌, arith,
  ◌==◌, if◌then◌else◌, Bool-cases, Option-cases, one_if,
}
use sortie.Prelude.Words.{add64}
use sortie.WebSocketStream.Echo.{on_response_data-Answered, Between, message_frame}
use sortie.WebSocket.Decoder.RoundTrip.{CanEncode}
use sortie.Prelude.Hex.{ReadsBack, Hex}
use sortie.Prelude.Updates.{get_or-update_at, counted_in_range, get_or-amend}
use sortie.WebSocketStream.Messages.{on_response_data, sequence_prefix, send_message, send, extract}
use sortie.WebSocket.{Key, Frame, encode_frame}
use sortie.WebSocketStream.{
  set_stream, Counters, InflightMessage, Network, Stream, Client, no_stream, stream_at,
}
use sortie.WebSocketStream.Streams.{is_live, is_open, on_write_blocked}

-- The message at the end of a queue that has no other with its number.
extract-append :
    (queue : List InflightMessage) (message : InflightMessage)
    → extract message.sequence queue ≡ none
    → extract message.sequence (queue ++ message ∷ []) ≡ some (message, queue)
extract-append [] message none_there =
    let same : (message.sequence == message.sequence) ≡ true = ground arith in rw (same) refl
extract-append (first ∷ queue) message none_there =
    elim (Bool-cases (first.sequence == message.sequence)) [
      | inl here ↦ absurd (ground (arith, here, none_there))
      | inr there ↦ elim (Option-cases (extract message.sequence queue)) [
        | inl missing ↦ rw (there, extract-append queue message missing) refl
        | inr ((found, others), later) ↦ absurd (ground (arith, there, later, none_there))
      ]
    ]

module _ (net : Network) where
  -- What send() leaves of a client, and of its stream.
  send_keeps :
      {B : Type 0} (g : Client → B) (i : ℕ) (frame : Frame) (c : Client)
      → ((streams : List Stream) (n : Counters) (written : List (ℕ × List ℕ))
          → g (record c { streams = streams; counters = n; written = written }) ≡ g c)
      → g (send net i frame c) ≡ g c
  unfolding send on_write_blocked
  send_keeps g i frame c e =
      let written = (i, encode_frame (some (net.mask c i)) frame) ∷ c.written in
      let sent : Client = record c { written = written } in
      elim (Bool-cases (net.write_blocks sent i)) [
        | inl blocks ↦ rw (blocks) (
            e (on_write_blocked i true sent).streams (on_write_blocked i true sent).counters
              written)
        | inr takes ↦ rw (takes) (e c.streams c.counters written)
      ]

  -- What send() puts on the wire.
  send_writes :
      (i : ℕ) (frame : Frame) (c : Client)
      → (send net i frame c).written ≡ (i, encode_frame (some (net.mask c i)) frame) ∷ c.written
  unfolding send on_write_blocked
  send_writes i frame c =
      let sent : Client = record c {
        written = (i, encode_frame (some (net.mask c i)) frame) ∷ c.written;
      } in
      elim (Bool-cases (net.write_blocks sent i)) [
        | inl blocks ↦ rw (blocks) refl
        | inr takes ↦ rw (takes) refl
      ]

  send_keeps_stream :
      {B : Type 0} (g : Stream → B) (i : ℕ) (frame : Frame) (c : Client)
      → ((s : Stream) (blocked : Bool) → g (record s { write_blocked = blocked }) ≡ g s)
      → g (stream_at (send net i frame c) i) ≡ g (stream_at c i)
  unfolding send on_write_blocked
  send_keeps_stream g i frame c e =
      let sent : Client = record c {
        written = (i, encode_frame (some (net.mask c i)) frame) ∷ c.written;
      } in
      elim (Bool-cases (net.write_blocks sent i)) [
        | inl blocks ↦ rw (blocks) (
            get_or-amend no_stream g (λ s. record s { write_blocked = true }) i c.streams
              (λ s. e s true))
        | inr takes ↦ rw (takes) refl
      ]

  send_counts :
      (g : Counters → ℕ) (i : ℕ) (frame : Frame) (c : Client)
      → ((n : Counters) (k : ℕ) → g (record n { stream_write_blocked = k }) ≡ g n)
      → g (send net i frame c).counters ≡ g c.counters
  unfolding send on_write_blocked
  send_counts g i frame c e =
      let n = c.counters in
      let sent : Client = record c {
        written = (i, encode_frame (some (net.mask c i)) frame) ∷ c.written;
      } in
      elim (Bool-cases (net.write_blocks sent i)) [
        | inr takes ↦ rw (takes) refl
        | inl blocks ↦ elim (Bool-cases (stream_at c i).write_blocked) [
          | inl already ↦ rw (blocks, already) refl
          | inr newly ↦ rw (blocks, newly) (e n (add64 n.stream_write_blocked 1))
        ]
      ]

-- A message is written to the wire as one frame, under some mask, and the same frame comes back
-- without a mask, on a stream that is open and between two frames and has no message in flight with
-- the number of this one: the message's callback, and no other, is told of a success, the queue is
-- what it was before, the time from the send to the echo is recorded if latencies are measured, and
-- it counts as one message sent and one received. The two functions of absl are taken to read back
-- the number that they wrote, and the message to fit into a frame.
pub send_message-echoed :
    (net : Network) (hex : Hex) (now later i callback : ℕ) (c : Client)
    → ReadsBack hex c.next_sequence
    → CanEncode (message_frame hex c.next_sequence c)
    → is_open (stream_at c i).state ≡ true
    → (stream_at c i).received ≡ []
    → (stream_at c i).fragments ≡ []
    → extract c.next_sequence (stream_at c i).inflight ≡ none
    → let echo = encode_frame none (message_frame hex c.next_sequence c) in
      let d = on_response_data net hex later i echo false (send_message net hex now i callback c) in
      (d.completed ≡ (callback, true) ∷ c.completed)
      × ((stream_at d i).inflight ≡ (stream_at c i).inflight)
      × (d.message_latency_statistic ≡ (
          if c.measure_latencies
          then (later - now) ∷ c.message_latency_statistic
          else c.message_latency_statistic))
      × (d.counters.stream_messages_sent ≡ add64 c.counters.stream_messages_sent 1)
      × (d.counters.stream_messages_received ≡ add64 c.counters.stream_messages_received 1)
      × ((mask : Key) × ((send_message net hex now i callback c).written
            ≡ (i, encode_frame (some mask) (message_frame hex c.next_sequence c)) ∷ c.written))
unfolding send_message sequence_prefix
send_message-echoed net hex now later i callback c h fits up nothing_received nothing_gathered
      unused =
    let stream = stream_at c i in
    let message : InflightMessage = record {
      sequence = c.next_sequence;
      sent_at = now;
      completion_callback = callback;
    } in
    let frame = message_frame hex c.next_sequence c in
    let longer : Stream → Stream = λ s. record s { inflight = stream.inflight ++ message ∷ [] } in
    let queued : Client = record (set_stream i (longer stream) c) {
      next_sequence = add64 c.next_sequence 1;
    } in
    let sent = send net i frame queued in
    let there =
      counted_in_range (λ s. one_if (is_open s.state)) no_stream i c.streams refl
        (rw (up) (omega arith)) in
    let at : stream_at queued i ≡ longer stream =
      get_or-update_at no_stream i (longer stream) c.streams there in
    let live : is_live (stream_at sent i).state ≡ true =
      send_keeps_stream net (λ s. is_live s.state) i frame queued (λ s b. refl)
      ∙ (ap (λ s. is_live s.state) at ∙ ground arith) in
    let between : Between (stream_at sent i) = record {
      live = live;
      nothing_received =
          send_keeps_stream net (λ s. s.received) i frame queued (λ s b. refl)
          ∙ (ap (λ s. s.received) at ∙ nothing_received);
      nothing_gathered =
          send_keeps_stream net (λ s. s.fragments) i frame queued (λ s b. refl)
          ∙ (ap (λ s. s.fragments) at ∙ nothing_gathered);
    } in
    let queue : (stream_at sent i).inflight ≡ stream.inflight ++ message ∷ [] =
      send_keeps_stream net (λ s. s.inflight) i frame queued (λ s b. refl)
      ∙ ap (λ s. s.inflight) at in
    let found : extract c.next_sequence (stream_at sent i).inflight
        ≡ some (message, stream.inflight) =
      ap (λ q. extract c.next_sequence q) queue ∙ extract-append stream.inflight message unused in
    let counted : Client = record sent {
      counters = record sent.counters {
        stream_messages_sent = add64 sent.counters.stream_messages_sent 1;
      };
    } in
    let told =
      on_response_data-Answered net hex later i c.next_sequence message stream.inflight counted c h
        fits between found in
    let received : sent.counters.stream_messages_received ≡ c.counters.stream_messages_received =
      send_counts net (λ n. n.stream_messages_received) i frame queued (λ n k. refl) in
    let sent_before : sent.counters.stream_messages_sent ≡ c.counters.stream_messages_sent =
      send_counts net (λ n. n.stream_messages_sent) i frame queued (λ n k. refl) in
    (
      told.told
          ∙ send_keeps net (λ d. (callback, true) ∷ d.completed) i frame queued (λ ss n w. refl),
      told.queue,
      told.latency
          ∙ send_keeps net
              (λ d.
                if d.measure_latencies
                then (later - now) ∷ d.message_latency_statistic
                else d.message_latency_statistic)
              i frame queued (λ ss n w. refl),
      ap (λ n. n.stream_messages_sent) told.counted ∙ ap (λ k. add64 k 1) sent_before,
      ap (λ n. n.stream_messages_received) told.counted ∙ ap (λ k. add64 k 1) received,
      (net.mask queued i, send_writes net i frame queued),
    )
