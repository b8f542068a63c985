-- ===== src/WebSocketStream/Echo.antt =====
-- A message of a WebSocketStreamBenchmarkClientImpl and the frame that echoes it
-- (engine/source/client/websocket_stream_client_impl.cc, engine/source/common/websocket.cc).
pub mod Pieces
pub mod Sent
use mathlib.Core.Path.{subst}
use sortie.Prelude.Updates.{get_or-update_at, get_or-amend, counted_in_range}
use sortie.Prelude.Words.{add64}
use sortie.Prelude.{
  update_at, get_or, zero, suc, ℕ, ◌+◌, ◌-◌, ◌*◌, ◌/◌, ◌%◌, ◌≤◌, ◌<◌, min, max, ◌≡◌, refl, sym, ap,
  ◌∙◌, ◌≢◌, ◌↔◌, ◌⊎◌, inl, inr, Bool, true, false, not, ◌&&◌, ◌||◌, Option, none, some, List, [],
  ◌∷◌, ◌++◌, map, arith, ltb, leb, ◌==◌, ==_iff, if◌then◌else◌, Bool-cases, Option-cases, one_if,
  length, take, drop, length-append, take-append, drop-append, All, bit_and, bit_or, bit_xor,
}
use sortie.WebSocketStream.Messages.{
  extract, on_fed, on_response_data, take_frames, look_up, on_message, on_data_frame, on_answer,
  sequence_prefix_length, sequence_of,
}
use mathlib.Core.List.{append-nil}
use sortie.Prelude.Hex.{Hex, ReadsBack}
use sortie.WebSocket.{Frame, text, binary, Opcode, encode_frame}
use sortie.WebSocket.Decoder.{decode_one, feed, Fed}
use sortie.WebSocket.Decoder.RoundTrip.{feed-encode_all, CanEncode}
use sortie.WebSocketStream.{
  stream_open, InflightMessage, Network, Stream, Client, no_stream, stream_at, set_stream,
}
use sortie.WebSocketStream.Streams.{is_open, is_live}

-- The frame that carries a message.
abbrev pub message_frame : Hex → ℕ → Client → Frame
message_frame hex sequence c = record {
  fin = true;
  opcode = if c.binary then binary else text;
  payload = hex.format_016x sequence ++ c.message;
}

-- A stream that waits for nothing but the beginning of a frame.
pub record Between (s : Stream) : Type 0 where
  pub live : is_live s.state ≡ true
  pub nothing_received : s.received ≡ []
  pub nothing_gathered : s.fragments ≡ []

sequence_of-prefix :
    (hex : Hex) (sequence : ℕ) (message : List ℕ)
    → ReadsBack hex sequence
    → sequence_of hex (hex.format_016x sequence ++ message) ≡ some sequence
unfolding sequence_of
sequence_of-prefix hex sequence message h =
    let prefix = hex.format_016x sequence in
    let whole = length-append prefix message in
    let front = take-append sequence_prefix_length prefix message h.digits in
    rw (front, h.reads) (ground (arith, whole, h.digits))

feed_one :
    (frame : Frame)
    → CanEncode frame
    → feed (encode_frame none frame) ≡ record { ok = true; frames = frame ∷ []; left = [] }
unfolding decode_one
feed_one frame h =
    let fed = feed-encode_all ((none, frame) ∷ []) [] ((h, tt), tt) refl in
    let plain : (encode_frame none frame ++ []) ++ [] ≡ encode_frame none frame =
      append-nil (encode_frame none frame ++ []) ∙ append-nil (encode_frame none frame) in
    sym (ap feed plain) ∙ fed

-- What the answer to a message does: the callback is told of a success, once, and nothing else of
-- the stream's queue changes.
pub record Answered (now i : ℕ) (message : InflightMessage) (rest : List InflightMessage)
    (c d : Client) : Type 0 where
  pub told : d.completed ≡ (message.completion_callback, true) ∷ c.completed
  pub queue : (stream_at d i).inflight ≡ rest
  pub latency : d.message_latency_statistic ≡ (
      if c.measure_latencies
      then (now - message.sent_at) ∷ c.message_latency_statistic
      else c.message_latency_statistic)
  pub counted :
      d.counters
      ≡ record c.counters { stream_messages_received = add64 c.counters.stream_messages_received 1 }
  pub quiet : d.written ≡ c.written

-- The stream that onMessage() works on, without what was gathered.
abbrev answered : ℕ → ℕ → Option (InflightMessage × List InflightMessage) → Client → Client
answered now i o c =
    let d = on_answer now i o c in set_stream i (record (stream_at d i) { fragments = [] }) d

answered-Answered :
    (now i : ℕ) (message : InflightMessage) (rest : List InflightMessage) (c : Client)
    → is_live (stream_at c i).state ≡ true
    → Answered now i message rest c (answered now i (some (message, rest)) c)
unfolding on_answer
answered-Answered now i message rest c live =
    let there =
      counted_in_range (λ s. one_if (is_live s.state)) no_stream i c.streams refl
        (rw (live) (omega arith)) in
    let s = record (stream_at c i) { inflight = rest } in
    let kept : get_or no_stream i (update_at i (λ old. s) c.streams) ≡ s =
      get_or-update_at no_stream i s c.streams there in
    let queue =
      get_or-amend no_stream (λ t. t.inflight) (λ t. record t { fragments = [] }) i
        (update_at i (λ old. s) c.streams) (λ t. refl) in
    record {
      told = refl;
      queue = queue ∙ ap (λ t. t.inflight) kept;
      latency = refl;
      counted = refl;
      quiet = refl;
    }

module _ (net : Network) (hex : Hex) where
  -- A frame that ends a message, on a stream that gathered nothing yet.
  on_data_frame-answered :
      (now i : ℕ) (frame : Frame) (o : Option (InflightMessage × List InflightMessage)) (c : Client)
      → frame.fin ≡ true
      → (stream_at c i).fragments ≡ []
      → look_up (sequence_of hex frame.payload) (stream_at c i).inflight ≡ o
      → on_data_frame net hex now i frame c
        ≡ answered now i o (
            set_stream i
              (record (stream_at c i) { fragments = (stream_at c i).fragments ++ frame.payload })
              c)
  unfolding on_data_frame on_message
  on_data_frame-answered now i frame o c fin nothing found =
      let whole = (stream_at c i).fragments ++ frame.payload in
      let gathered : Client = set_stream i (record (stream_at c i) { fragments = whole }) c in
      let payload : whole ≡ frame.payload = ap (λ f. f ++ frame.payload) nothing in
      let queue : (stream_at gathered i).inflight ≡ (stream_at c i).inflight =
        get_or-amend no_stream (λ t. t.inflight)
          (λ t. record t { fragments = (stream_at c i).fragments ++ frame.payload }) i c.streams
          (λ t. refl) in
      let answer : look_up (sequence_of hex whole) (stream_at gathered i).inflight ≡ o =
        ap (λ q. look_up (sequence_of hex whole) q) queue
        ∙ (ap (λ p. look_up (sequence_of hex p) (stream_at c i).inflight) payload ∙ found) in
      rw (fin) (ap (λ a. answered now i a gathered) answer)

  -- What the loop does with a message that is one frame.
  take_message :
      (now i : ℕ) (b : Bool) (payload : List ℕ) (c : Client)
      → let frame : Frame = record {
        fin = true;
        opcode = if b then binary else text;
        payload = payload;
      } in
        take_frames net hex now i false (frame ∷ []) c ≡ on_data_frame net hex now i frame c
  unfolding take_frames
  take_message now i true payload c = refl
  take_message now i false payload c = refl

  -- Data on a stream that is open or closing goes to the decoder.
  pub live_data :
      (now i : ℕ) (bytes : List ℕ) (end_stream : Bool) (c : Client)
      → is_live (stream_at c i).state ≡ true
      → on_response_data net hex now i bytes end_stream c
        ≡ on_fed net hex now i end_stream (feed ((stream_at c i).received ++ bytes)) c
  unfolding on_response_data
  live_data now i bytes end_stream c live = rw (live) refl

  -- The echo of a message in flight, on a stream between two frames.
  pub on_response_data-Answered :
      (now i sequence : ℕ) (message : InflightMessage) (rest : List InflightMessage) (c k : Client)
      → ReadsBack hex sequence
      → CanEncode (message_frame hex sequence k)
      → Between (stream_at c i)
      → extract sequence (stream_at c i).inflight ≡ some (message, rest)
      → Answered now i message rest c (
          on_response_data net hex now i (encode_frame none (message_frame hex sequence k)) false c)
  unfolding on_fed
  on_response_data-Answered now i sequence message rest c k h fits between found =
      let frame = message_frame hex sequence k in
      let bytes = encode_frame none frame in
      let emptied : Stream → Stream = λ t. record t { received = [] } in
      let kept : Client = set_stream i (emptied (stream_at c i)) c in
      let whole : (stream_at c i).received ++ bytes ≡ bytes =
        ap (λ r. r ++ bytes) between.nothing_received in
      let fed = ap feed whole ∙ feed_one frame fits in
      let queue : (stream_at kept i).inflight ≡ (stream_at c i).inflight =
        get_or-amend no_stream (λ t. t.inflight) emptied i c.streams (λ t. refl) in
      let nothing : (stream_at kept i).fragments ≡ [] =
        get_or-amend no_stream (λ t. t.fragments) emptied i c.streams (λ t. refl)
        ∙ between.nothing_gathered in
      let answer : look_up (sequence_of hex frame.payload) (stream_at kept i).inflight
          ≡ some (message, rest) =
        ap (λ o. look_up o (stream_at kept i).inflight)
          (sequence_of-prefix hex sequence k.message h)
        ∙ (ap (λ q. extract sequence q) queue ∙ found) in
      let gather : Stream → Stream =
        λ t. record t { fragments = (stream_at kept i).fragments ++ frame.payload } in
      let gathered : Client = set_stream i (gather (stream_at kept i)) kept in
      let live : is_live (stream_at gathered i).state ≡ true =
        get_or-amend no_stream (λ t. is_live t.state) gather i kept.streams (λ t. refl)
        ∙ (get_or-amend no_stream (λ t. is_live t.state) emptied i c.streams (λ t. refl)
            ∙ between.live) in
      let whole_way =
        live_data now i bytes false c between.live
        ∙ (ap (λ f. on_fed net hex now i false f c) fed
            ∙ (take_message now i k.binary frame.payload kept
                ∙ on_data_frame-answered now i frame (some (message, rest)) kept refl nothing
                    answer)) in
      let done = answered-Answered now i message rest gathered live in
      subst (λ d. Answered now i message rest c d) (sym whole_way)
        (record {
          told = done.told;
          queue = done.queue;
          latency = done.latency;
          counted = done.counted;
          quiet = done.quiet;
        })
