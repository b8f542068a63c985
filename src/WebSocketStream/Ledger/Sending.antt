-- ===== src/WebSocketStream/Ledger/Sending.antt =====
-- The books, what is sent and what comes back
-- (engine/source/client/websocket_stream_client_impl.cc).
use sortie.Prelude.Updates.{is_callback}
use sortie.WebSocketStream.Ledger.Completing.{close_stream-Books}
use sortie.WebSocketStream.Ledger.Opening.{
  reset_stream-Books, on_response_end-Books, touched-BooksAt, on_write_blocked-messages_sent,
  on_write_blocked-BooksAt,
}
use sortie.Prelude.Words.{add64}
use sortie.WebSocketStream.Messages.{
  sequence_of, on_response_data, on_fed, on_protocol_error, take_frames, on_close_frame, on_ping,
  on_data_frame, send, on_message, look_up, on_answer, extract,
}
use sortie.Prelude.{
  ◌+◌, ◌∙◌, suc, ℕ, ◌≡◌, refl, ap, inl, inr, Bool, true, Option, none, some, List, [], ◌∷◌, ◌++◌,
  arith, ◌==◌, if◌then◌else◌, Bool-cases, Option-cases, length,
}
use sortie.Prelude.Hex.{Hex}
use sortie.WebSocket.{
  Frame, continuation, text, binary, close, ping, pong, encode_frame, close_frame,
}
use sortie.WebSocket.Decoder.{feed, Fed}
use sortie.WebSocketStream.{InflightMessage, Network, Client, stream_at, set_stream}
use sortie.WebSocketStream.Streams.{is_open, is_live, close_stream, on_response_end}
use sortie.WebSocketStream.Ledger.{
  waits, waits_in, if-Books, popped-Books, in_flight, Books, BooksAt,
}

-- What extract() finds is taken out of the queue.
extract_shorter :
    (sequence : ℕ) (queue rest : List InflightMessage) (message : InflightMessage)
    → extract sequence queue ≡ some (message, rest)
    → length queue ≡ suc (length rest)
extract_shorter sequence [] rest message e = absurd (ground (arith, e))
extract_shorter sequence (first ∷ queue) rest message e =
    elim (Bool-cases (first.sequence == sequence)) [
      | inl here ↦
          let at : some (first, queue) ≡ some (message, rest) = rw (here) at e in
          ap (λ o. elim o [ none ↦ 0 | some p ↦ suc (length p.1) ]) at
      | inr there ↦ elim (Option-cases (extract sequence queue)) [
        | inl missing ↦ absurd (ground (arith, missing, there, e))
        | inr ((found, others), later) ↦
            let at : some (found, first ∷ others) ≡ some (message, rest) = rw (there, later) at e in
            let size : length queue ≡ suc (length others) =
              extract_shorter sequence queue others found later in
            let same : suc (length others) ≡ length rest =
              ap (λ o. elim o [ none ↦ 0 | some p ↦ length p.1 ]) at in
            ap suc (size ∙ same)
      ]
    ]

abbrev found_waits : ℕ → Option (InflightMessage × List InflightMessage) → ℕ
found_waits k none = 0
found_waits k (some (message, rest)) = is_callback k message.completion_callback + waits_in k rest

extract-waits :
    (k sequence : ℕ) (queue rest : List InflightMessage) (message : InflightMessage)
    → extract sequence queue ≡ some (message, rest)
    → waits_in k queue ≡ is_callback k message.completion_callback + waits_in k rest
extract-waits k sequence [] rest message e = absurd (ground (arith, e))
extract-waits k sequence (first ∷ queue) rest message e =
    elim (Bool-cases (first.sequence == sequence)) [
      | inl here ↦
          let at : some (first, queue) ≡ some (message, rest) = rw (here) at e in
          ap (found_waits k) at
      | inr there ↦ elim (Option-cases (extract sequence queue)) [
        | inl missing ↦ absurd (ground (arith, missing, there, e))
        | inr ((found, others), later) ↦
            let at : some (found, first ∷ others) ≡ some (message, rest) = rw (there, later) at e in
            omega (arith, ap (found_waits k) at, extract-waits k sequence queue others found later)
      ]
    ]

module _ (requests : List ℕ) where
  on_answer-Books :
      (now i : ℕ) (o : Option (InflightMessage × List InflightMessage)) (c : Client)
      → ((message : InflightMessage) (rest : List InflightMessage)
          → o ≡ some (message, rest)
          → in_flight (stream_at c i) ≡ suc (length rest))
      → ((k : ℕ) (message : InflightMessage) (rest : List InflightMessage)
          → o ≡ some (message, rest)
          → waits k (stream_at c i) ≡ is_callback k message.completion_callback + waits_in k rest)
      → Books requests c
      → Books requests (on_answer now i o c)
  unfolding on_answer
  on_answer-Books now i none c e its v = v
  on_answer-Books now i (some (message, rest)) c e its v =
      popped-Books requests true i message rest c (e message rest refl)
        (λ k. its k message rest refl) v

  look_up_shorter :
      (o : Option ℕ) (queue rest : List InflightMessage) (message : InflightMessage)
      → look_up o queue ≡ some (message, rest)
      → length queue ≡ suc (length rest)
  look_up_shorter none queue rest message e = absurd (ground (arith, e))
  look_up_shorter (some sequence) queue rest message e =
      extract_shorter sequence queue rest message e

  look_up-waits :
      (k : ℕ) (o : Option ℕ) (queue rest : List InflightMessage) (message : InflightMessage)
      → look_up o queue ≡ some (message, rest)
      → waits_in k queue ≡ is_callback k message.completion_callback + waits_in k rest
  look_up-waits k none queue rest message e = absurd (ground (arith, e))
  look_up-waits k (some sequence) queue rest message e =
      extract-waits k sequence queue rest message e

  pub on_message-Books :
      (hex : Hex) (now i : ℕ) (payload : List ℕ) (c : Client)
      → Books requests c
      → Books requests (on_message hex now i payload c)
  unfolding on_message
  on_message-Books hex now i payload c v =
      let queue = (stream_at c i).inflight in
      on_answer-Books now i (look_up (sequence_of hex payload) queue) c
        (λ message rest e. look_up_shorter (sequence_of hex payload) queue rest message e)
        (λ k message rest e. look_up-waits k (sequence_of hex payload) queue rest message e) v

  module _ (net : Network) where
    pub send-BooksAt :
        (sent i : ℕ) (frame : Frame) (c : Client)
        → BooksAt requests sent c
        → BooksAt requests sent (send net i frame c)
    unfolding send
    send-BooksAt sent i frame c v =
        let out : Client = record c {
          written = (i, encode_frame (some (net.mask c i)) frame) ∷ c.written;
        } in
        elim (Bool-cases (net.write_blocks out i)) [
          | inl blocks ↦ rw (blocks) (on_write_blocked-BooksAt requests sent i true out v)
          | inr takes ↦ rw (takes) v
        ]

    pub send-messages_sent :
        (i : ℕ) (frame : Frame) (c : Client)
        → (send net i frame c).counters.stream_messages_sent ≡ c.counters.stream_messages_sent
    unfolding send
    send-messages_sent i frame c =
        let out : Client = record c {
          written = (i, encode_frame (some (net.mask c i)) frame) ∷ c.written;
        } in
        elim (Bool-cases (net.write_blocks out i)) [
          | inl blocks ↦ rw (blocks) (on_write_blocked-messages_sent requests i true out)
          | inr takes ↦ rw (takes) refl
        ]

    pub send-Books :
        (i : ℕ) (frame : Frame) (c : Client)
        → Books requests c
        → Books requests (send net i frame c)
    send-Books i frame c v =
        rw (send-messages_sent i frame c) (send-BooksAt c.counters.stream_messages_sent i frame c v)

    module _ (hex : Hex) where
      on_data_frame-Books :
          (now i : ℕ) (frame : Frame) (c : Client)
          → Books requests c
          → Books requests (on_data_frame net hex now i frame c)
      unfolding on_data_frame
      on_data_frame-Books now i frame c v =
          let whole = (stream_at c i).fragments ++ frame.payload in
          let s = record (stream_at c i) { fragments = whole } in
          let gathered = set_stream i s c in
          let kept = touched-BooksAt requests c.counters.stream_messages_sent i s c refl refl v in
          let answered = on_message hex now i whole gathered in
          let told = on_message-Books hex now i whole gathered kept in
          let t = record (stream_at answered i) { fragments = [] } in
          if-Books requests frame.fin (set_stream i t answered) gathered
            (touched-BooksAt requests answered.counters.stream_messages_sent i t answered refl refl
              told)
            kept

      on_ping-Books :
          (i : ℕ) (frame : Frame) (c : Client)
          → Books requests c
          → Books requests (on_ping net hex i frame c)
      unfolding on_ping
      on_ping-Books i frame c v =
          if-Books requests (is_open (stream_at c i).state)
            (send net i (record frame { opcode = pong }) c) c
            (send-Books i (record frame { opcode = pong }) c v) v

      on_close_frame-Books :
          (i : ℕ) (c : Client) → Books requests c → Books requests (on_close_frame net hex i c)
      unfolding on_close_frame
      on_close_frame-Books i c v =
          let n = c.counters in
          let counted : Client = record c {
            counters = record n { stream_early_close = add64 n.stream_early_close 1 };
          } in
          let up = is_open (stream_at c i).state in
          let answered = send net i (close_frame 1000) counted in
          close_stream-Books requests i (if up then answered else c)
            (if-Books requests up answered c (send-Books i (close_frame 1000) counted v) v)

      take_frames-Books :
          (now i : ℕ) (end_stream : Bool) (frames : List Frame) (c : Client)
          → Books requests c
          → Books requests (take_frames net hex now i end_stream frames c)
      unfolding take_frames
      take_frames-Books now i end_stream [] c v =
          if-Books requests end_stream (on_response_end i c) c
            (on_response_end-Books requests i c v) v
      take_frames-Books now i end_stream (frame ∷ frames) c v =
          let taken =
            take_frames-Books now i end_stream frames (on_data_frame net hex now i frame c)
              (on_data_frame-Books now i frame c v) in
          elim frame.opcode
            as (λ op. Books requests (elim op [
              | text ↦
                  take_frames net hex now i end_stream frames (on_data_frame net hex now i frame c)
              | binary ↦
                  take_frames net hex now i end_stream frames (on_data_frame net hex now i frame c)
              | continuation ↦
                  take_frames net hex now i end_stream frames (on_data_frame net hex now i frame c)
              | ping ↦ take_frames net hex now i end_stream frames (on_ping net hex i frame c)
              | pong ↦ take_frames net hex now i end_stream frames c
              | close ↦ on_close_frame net hex i c
            ])) [
              | text ↦ taken
              | binary ↦ taken
              | continuation ↦ taken
              | ping ↦
                  take_frames-Books now i end_stream frames (on_ping net hex i frame c)
                    (on_ping-Books i frame c v)
              | pong ↦ take_frames-Books now i end_stream frames c v
              | close ↦ on_close_frame-Books i c v
            ]

      on_protocol_error-Books :
          (i : ℕ) (c : Client) → Books requests c → Books requests (on_protocol_error net hex i c)
      unfolding on_protocol_error
      on_protocol_error-Books i c v =
          let n = c.counters in
          let counted : Client = record c {
            counters = record n { stream_protocol_errors = add64 n.stream_protocol_errors 1 };
          } in
          reset_stream-Books requests (stream_at c i).encoder i (close_stream i counted)
            (close_stream-Books requests i counted v)

      on_fed-Books :
          (now i : ℕ) (end_stream : Bool) (fed : Fed) (c : Client)
          → Books requests c
          → Books requests (on_fed net hex now i end_stream fed c)
      unfolding on_fed
      on_fed-Books now i end_stream fed c v =
          let s = record (stream_at c i) { received = fed.left } in
          let kept = touched-BooksAt requests c.counters.stream_messages_sent i s c refl refl v in
          if-Books requests fed.ok
            (take_frames net hex now i end_stream fed.frames (set_stream i s c))
            (on_protocol_error net hex i (set_stream i s c))
            (take_frames-Books now i end_stream fed.frames (set_stream i s c) kept)
            (on_protocol_error-Books i (set_stream i s c) kept)

      pub on_response_data-Books :
          (now i : ℕ) (bytes : List ℕ) (end_stream : Bool) (c : Client)
          → Books requests c
          → Books requests (on_response_data net hex now i bytes end_stream c)
      unfolding on_response_data
      on_response_data-Books now i bytes end_stream c v =
          let fed = feed ((stream_at c i).received ++ bytes) in
          if-Books requests (is_live (stream_at c i).state) (on_fed net hex now i end_stream fed c)
            (if end_stream then on_response_end i c else c) (on_fed-Books now i end_stream fed c v)
            (if-Books requests end_stream (on_response_end i c) c
              (on_response_end-Books requests i c v) v)
