-- ===== src/WebSocketStream/Ledger/Requests.antt =====
-- The books and one request that is made
-- (engine/source/client/websocket_stream_client_impl.cc).
use sortie.WebSocketStream.Ledger.Sending.{send-BooksAt, send-messages_sent}
use sortie.Prelude.Updates.{
  total-append, is_callback, length-update_at, All-update_at, total-update_at, counted_in_range,
}
use sortie.WebSocketStream.Messages.{sequence_prefix, try_start_request, send_message}
use sortie.Prelude.Words.{add32, add64}
use sortie.Prelude.{
  List, ℕ, ◌+◌, ◌%◌, ◌<◌, ◌≡◌, refl, ◌∙◌, inl, inr, true, false, ◌||◌, [], ◌∷◌, ◌++◌, arith, leb,
  if◌then◌else◌, Bool-cases, one_if, length, length-append,
}
use sortie.Prelude.Hex.{Hex}
use sortie.WebSocket.{Frame, text, binary}
use sortie.WebSocketStream.{InflightMessage, Network, Client, no_stream, stream_at, set_stream}
use sortie.WebSocketStream.Streams.{is_open, is_live}
use sortie.WebSocketStream.Ledger.{waits, in_flight, Fits, Books, BooksAt}

-- One more message in flight, and one more sent.
queued-BooksAt :
    (requests : List ℕ) (i : ℕ) (message : InflightMessage) (c : Client)
    → is_open (stream_at c i).state ≡ true
    → in_flight (stream_at c i) < c.max_inflight_per_stream
    → Books requests c
    → BooksAt (message.completion_callback ∷ requests) (add64 c.counters.stream_messages_sent 1) (
        set_stream i
          (record (stream_at c i) { inflight = (stream_at c i).inflight ++ message ∷ [] })
          c)
queued-BooksAt requests i message c up room v =
    let stream = stream_at c i in
    let s = record stream { inflight = stream.inflight ++ message ∷ [] } in
    let live : is_live stream.state ≡ true = ground arith in
    let there =
      counted_in_range (λ t. one_if (is_open t.state)) no_stream i c.streams refl
        (rw (up) (omega arith)) in
    let one_more : in_flight s ≡ in_flight stream + 1 =
      length-append stream.inflight (message ∷ []) in
    let flight = total-update_at in_flight no_stream i s c.streams refl (inr there) in
    let h : Fits c.max_inflight_per_stream s = rw (live) (omega (arith, one_more, room)) in
    record {
      calls = omega (arith, v.calls, flight, one_more);
      owed = λ k.
          let mine : waits k s ≡ waits k stream + is_callback k message.completion_callback =
            total-append (λ m. is_callback k m.completion_callback) stream.inflight message in
          omega (
            arith,
            v.owed k,
            mine,
            total-update_at (waits k) no_stream i s c.streams refl (inr there),
          );
      messages = omega (arith, v.messages, flight, one_more);
      answers = v.answers;
      failures = v.failures;
      fits = All-update_at (Fits c.max_inflight_per_stream) i s c.streams v.fits h;
      streams_there = length-update_at i s c.streams ∙ v.streams_there;
    }

send_message-Books :
    (requests : List ℕ) (net : Network) (hex : Hex) (now i callback : ℕ) (c : Client)
    → is_open (stream_at c i).state ≡ true
    → in_flight (stream_at c i) < c.max_inflight_per_stream
    → Books requests c
    → Books (callback ∷ requests) (send_message net hex now i callback c)
unfolding send_message
send_message-Books requests net hex now i callback c up room v =
    let stream = stream_at c i in
    let message : InflightMessage = record {
      sequence = c.next_sequence;
      sent_at = now;
      completion_callback = callback;
    } in
    let frame : Frame = record {
      fin = true;
      opcode = if c.binary then binary else text;
      payload = sequence_prefix hex c.next_sequence ++ c.message;
    } in
    let queued : Client =
      record (set_stream i (record stream { inflight = stream.inflight ++ message ∷ [] }) c) {
        next_sequence = add64 c.next_sequence 1;
      } in
    let sent = add64 c.counters.stream_messages_sent 1 in
    rw (send-messages_sent requests net i frame queued) (
      send-BooksAt (callback ∷ requests) net sent i frame queued
        (queued-BooksAt requests i message c up room v))

-- A message that is dropped: its callback is posted as a failure.
dropped-Books :
    (requests : List ℕ) (callback : ℕ) (c : Client)
    → Books requests c
    → Books (callback ∷ requests) (record c { posted = (callback, false) ∷ c.posted })
dropped-Books requests callback c v = record {
  calls = omega (arith, v.calls);
  owed = λ k. omega (arith, v.owed k);
  messages = v.messages;
  answers = v.answers;
  failures = omega (arith, v.failures);
  fits = v.fits;
  streams_there = v.streams_there;
}

pub try_start_request-Books :
    (requests : List ℕ) (net : Network) (hex : Hex) (now callback : ℕ) (c : Client)
    → Books requests c
    → Books (callback ∷ requests) (try_start_request net hex now callback c)
unfolding try_start_request
try_start_request-Books requests net hex now callback c v =
    let i = c.next_stream in
    let stream = stream_at c i in
    let next : Client = record c { next_stream = add32 c.next_stream 1 % c.stream_count } in
    let dropped = dropped-Books requests callback c v in
    elim (Bool-cases (is_open stream.state)) [
      | inr down ↦ rw (down) dropped
      | inl up ↦
          let full =
            stream.write_blocked || leb c.max_inflight_per_stream (length stream.inflight) in
          elim (Bool-cases full) [
            | inl blocked ↦ rw (up, blocked) dropped
            | inr room ↦
                rw (up, room)
                  (send_message-Books requests net hex now i callback next up (ground (arith, room))
                    v)
          ]
    ]
