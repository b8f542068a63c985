-- ===== src/WebSocketStream/Messages.antt =====
-- What a WebSocketStreamBenchmarkClientImpl sends, and how it takes what comes back
-- (engine/source/client/websocket_stream_client_impl.cc).
use sortie.Prelude.Words.{add32, add64}
use sortie.Prelude.{
  ℕ, ◌-◌, ◌%◌, Bool, true, false, not, ◌||◌, Option, none, some, List, [], ◌∷◌, ◌++◌, ltb, leb,
  ◌==◌, if◌then◌else◌, length, take,
}
use sortie.Prelude.Hex.{Hex}
use sortie.WebSocket.{
  Frame, Opcode, continuation, text, binary, close, ping, pong, encode_frame, close_frame,
}
use sortie.WebSocket.Decoder.{feed, Fed}
use sortie.WebSocketStream.{InflightMessage, Client, Network, stream_at, set_stream}
use sortie.WebSocketStream.Streams.{
  is_open, is_live, close_stream, reset_stream, on_response_end, on_write_blocked,
}

abbrev pub sequence_prefix_length : ℕ
sequence_prefix_length = 16

-- The first message in flight with a sequence number, and the others in their order.
abbrev pub extract : ℕ → List InflightMessage → Option (InflightMessage × List InflightMessage)
extract sequence [] = none
extract sequence (message ∷ rest) =
    let later = extract sequence rest in
    if message.sequence == sequence
    then some (message, rest)
    else elim later [ none ↦ none | some (found, others) ↦ some (found, message ∷ others) ]

abbrev pub unexpected : Client → Client
unexpected c = record c {
  counters = record c.counters {
    stream_unexpected_message = add64 c.counters.stream_unexpected_message 1;
  };
}

-- onMessage() on the message that it found in flight, if it found one.
unfoldable pub on_answer : ℕ → ℕ → Option (InflightMessage × List InflightMessage) → Client → Client
on_answer now i none c = unexpected c
on_answer now i (some (message, rest)) c =
    let n = c.counters in
    record (set_stream i (record (stream_at c i) { inflight = rest }) c) {
      counters = record n { stream_messages_received = add64 n.stream_messages_received 1 };
      message_latency_statistic =
          if c.measure_latencies
          then (now - message.sent_at) ∷ c.message_latency_statistic
          else c.message_latency_statistic;
      completed = (message.completion_callback, true) ∷ c.completed;
    }

abbrev pub look_up :
    Option ℕ → List InflightMessage → Option (InflightMessage × List InflightMessage)
look_up none inflight = none
look_up (some sequence) inflight = extract sequence inflight

module _ (hex : Hex) where
  unfoldable pub sequence_prefix : ℕ → List ℕ
  sequence_prefix sequence = hex.format_016x sequence

  -- The sequence number that a payload starts with.
  unfoldable pub sequence_of : List ℕ → Option ℕ
  sequence_of payload =
      if ltb (length payload) sequence_prefix_length
      then none
      else hex.hex_atoi (take sequence_prefix_length payload)

  unfoldable pub on_message : ℕ → ℕ → List ℕ → Client → Client
  unfolding on_answer sequence_of
  on_message now i payload c =
      on_answer now i (look_up (sequence_of payload) (stream_at c i).inflight) c

module _ (net : Network) where
  -- send(): encodeData() may find the stream above its high watermark.
  unfoldable pub send : ℕ → Frame → Client → Client
  unfolding encode_frame on_write_blocked
  send i frame c =
      let sent = record c { written = (i, encode_frame (some (net.mask c i)) frame) ∷ c.written } in
      if net.write_blocks sent i then on_write_blocked i true sent else sent

  module _ (hex : Hex) where
    abbrev pub is_data : Opcode → Bool
    is_data text = true
    is_data binary = true
    is_data continuation = true
    is_data _ = false

    -- A data frame: a message ends with the frame that has `fin`.
    unfoldable pub on_data_frame : ℕ → ℕ → Frame → Client → Client
    unfolding on_message
    on_data_frame now i frame c =
        let stream = stream_at c i in
        let whole = stream.fragments ++ frame.payload in
        let gathered = set_stream i (record stream { fragments = whole }) c in
        let answered = on_message hex now i whole gathered in
        if frame.fin
        then set_stream i (record (stream_at answered i) { fragments = [] }) answered
        else gathered

    unfoldable pub on_ping : ℕ → Frame → Client → Client
    unfolding send
    on_ping i frame c =
        if is_open (stream_at c i).state then send i (record frame { opcode = pong }) c else c

    unfoldable pub on_close_frame : ℕ → Client → Client
    unfolding send close_frame close_stream
    on_close_frame i c =
        let n = c.counters in
        let counted = record c {
          counters = record n { stream_early_close = add64 n.stream_early_close 1 };
        } in
        close_stream i
          (if is_open (stream_at c i).state then send i (close_frame 1000) counted else c)

    -- The loop of onResponseData() and what follows it: a Close frame ends both.
    unfoldable pub take_frames : ℕ → ℕ → Bool → List Frame → Client → Client
    unfolding on_data_frame on_ping on_close_frame on_response_end
    take_frames now i end_stream [] c = if end_stream then on_response_end i c else c
    take_frames now i end_stream (frame ∷ frames) c = elim frame.opcode [
      | text ↦ take_frames now i end_stream frames (on_data_frame now i frame c)
      | binary ↦ take_frames now i end_stream frames (on_data_frame now i frame c)
      | continuation ↦ take_frames now i end_stream frames (on_data_frame now i frame c)
      | ping ↦ take_frames now i end_stream frames (on_ping i frame c)
      | pong ↦ take_frames now i end_stream frames c
      | close ↦ on_close_frame i c
    ]

    unfoldable pub on_protocol_error : ℕ → Client → Client
    unfolding close_stream reset_stream
    on_protocol_error i c =
        let n = c.counters in
        reset_stream (stream_at c i).encoder i (
          close_stream i (record c {
            counters = record n { stream_protocol_errors = add64 n.stream_protocol_errors 1 };
          }))

    -- onResponseData() on what the decoder made of the stream's bytes.
    unfoldable pub on_fed : ℕ → ℕ → Bool → Fed → Client → Client
    unfolding take_frames on_protocol_error
    on_fed now i end_stream fed c =
        let kept = set_stream i (record (stream_at c i) { received = fed.left }) c in
        if fed.ok then take_frames now i end_stream fed.frames kept else on_protocol_error i kept

    unfoldable pub on_response_data : ℕ → ℕ → List ℕ → Bool → Client → Client
    unfolding on_fed feed
    on_response_data now i bytes end_stream c =
        if is_live (stream_at c i).state
        then on_fed now i end_stream (feed ((stream_at c i).received ++ bytes)) c
        else if end_stream
        then on_response_end i c
        else c

    -- A message that goes out on a stream that can take it.
    unfoldable pub send_message : ℕ → ℕ → ℕ → Client → Client
    unfolding send sequence_prefix
    send_message now i callback c =
        let stream = stream_at c i in
        let message : InflightMessage = record {
          sequence = c.next_sequence;
          sent_at = now;
          completion_callback = callback;
        } in
        let frame : Frame = record {
          fin = true;
          opcode = if c.binary then binary else text;
          payload = sequence_prefix hex c.next_sequence ++ c.message;
        } in
        let queued =
          record (set_stream i (record stream { inflight = stream.inflight ++ message ∷ [] }) c) {
            next_sequence = add64 c.next_sequence 1;
          } in
        let sent = send i frame queued in
        record sent {
          counters = record sent.counters {
            stream_messages_sent = add64 sent.counters.stream_messages_sent 1;
          };
        }

    -- tryStartRequest(); it returns true.
    unfoldable pub try_start_request : ℕ → ℕ → Client → Client
    unfolding send_message
    try_start_request now callback c =
        let i = c.next_stream in
        let stream = stream_at c i in
        let next = record c { next_stream = add32 c.next_stream 1 % c.stream_count } in
        let n = c.counters in
        let unavailable = record next {
          counters = record n { stream_unavailable = add64 n.stream_unavailable 1 };
          posted = (callback, false) ∷ c.posted;
        } in
        let deferred = record next {
          counters = record n { stream_deferred = add64 n.stream_deferred 1 };
          posted = (callback, false) ∷ c.posted;
        } in
        if not (is_open stream.state)
        then unavailable
        else if stream.write_blocked || leb c.max_inflight_per_stream (length stream.inflight)
        then deferred
        else send_message now i callback next
