-- ===== src/WebSocketStream/Echo/Pieces.antt =====
-- Data that comes to a WebSocketStreamBenchmarkClientImpl in pieces
-- (engine/source/client/websocket_stream_client_impl.cc).
use sortie.WebSocketStream.Echo.{live_data}
use sortie.WebSocket.Decoder.Chunks.{feed-append}
use mathlib.Core.List.{append_assoc}
use sortie.WebSocket.Decoder.{feed, Fed}
use sortie.WebSocketStream.Streams.{is_live}
use sortie.Prelude.{
  ℕ, ◌-◌, ◌≡◌, refl, sym, ap, ◌∙◌, inl, inr, Bool, true, false, Option, none, some, List, [], ◌∷◌,
  ◌++◌, arith, if◌then◌else◌, Bool-cases, Option-cases, one_if, All,
}
use sortie.Prelude.Updates.{
  amend_over, get_or-update_at, counted_in_range, amend-commutes, get_or-amend,
}
use sortie.Prelude.Words.{add64}
use sortie.WebSocketStream.Messages.{
  on_response_data, on_fed, is_data, sequence_of, look_up, take_frames, on_data_frame, on_message,
  on_answer,
}
use sortie.Prelude.Hex.{Hex}
use sortie.WebSocket.{Frame, Opcode, continuation, text, binary, close, ping, pong}
use sortie.WebSocketStream.{
  InflightMessage, Network, Stream, Client, no_stream, stream_at, set_stream,
}

-- A frame that the client does not answer: of a message, or a Pong.
abbrev pub needs_answer : Opcode → Bool
needs_answer ping = true
needs_answer close = true
needs_answer _ = false

abbrev pub IsUnanswered : Frame → Type 0
IsUnanswered frame = needs_answer frame.opcode ≡ false

-- The stream's buffer holds other bytes.
abbrev with_received : ℕ → List ℕ → Client → Client
with_received i bytes c = set_stream i (record (stream_at c i) { received = bytes }) c

abbrev buffer : List ℕ → Stream → Stream
buffer bytes s = record s { received = bytes }

module _ (net : Network) (hex : Hex) (now i : ℕ) where
  abbrev heard : Frame → Client → Client
  heard frame c = if is_data net hex frame.opcode then on_data_frame net hex now i frame c else c

  -- An unanswered frame is heard, and the loop goes on.
  take_next :
      (end_stream : Bool) (frame : Frame) (frames : List Frame) (op : Opcode) (c : Client)
      → frame.opcode ≡ op
      → needs_answer op ≡ false
      → take_frames net hex now i end_stream (frame ∷ frames) c
        ≡ take_frames net hex now i end_stream frames (heard frame c)
  unfolding take_frames
  take_next end_stream frame frames text c e v = rw (e) refl
  take_next end_stream frame frames binary c e v = rw (e) refl
  take_next end_stream frame frames continuation c e v = rw (e) refl
  take_next end_stream frame frames pong c e v = rw (e) refl
  take_next end_stream frame frames ping c e v = absurd (ground (arith, v))
  take_next end_stream frame frames close c e v = absurd (ground (arith, v))

module _ (now i : ℕ) (bytes : List ℕ) where
  on_answer-with_received :
      (o : Option (InflightMessage × List InflightMessage)) (c : Client)
      → on_answer now i o (with_received i bytes c) ≡ with_received i bytes (on_answer now i o c)
  unfolding on_answer
  on_answer-with_received none c = refl
  on_answer-with_received (some (message, rest)) c =
      let n = c.counters in
      ap
        (λ ss. record c {
          streams = ss;
          counters = record n { stream_messages_received = add64 n.stream_messages_received 1 };
          message_latency_statistic =
              if c.measure_latencies
              then (now - message.sent_at) ∷ c.message_latency_statistic
              else c.message_latency_statistic;
          completed = (message.completion_callback, true) ∷ c.completed;
        })
        (amend-commutes no_stream (λ s. record s { inflight = rest }) (buffer bytes) i c.streams
          (λ s. refl))

  on_message-with_received :
      (hex : Hex) (payload : List ℕ) (c : Client)
      → on_message hex now i payload (with_received i bytes c)
        ≡ with_received i bytes (on_message hex now i payload c)
  unfolding on_message
  on_message-with_received hex payload c =
      ap (λ q. on_answer now i (look_up (sequence_of hex payload) q) (with_received i bytes c))
        (get_or-amend no_stream (λ s. s.inflight) (buffer bytes) i c.streams (λ s. refl))
      ∙ on_answer-with_received (look_up (sequence_of hex payload) (stream_at c i).inflight) c

  module _ (net : Network) (hex : Hex) where
    on_data_frame-with_received :
        (frame : Frame) (c : Client)
        → on_data_frame net hex now i frame (with_received i bytes c)
          ≡ with_received i bytes (on_data_frame net hex now i frame c)
    unfolding on_data_frame
    on_data_frame-with_received frame c =
        let gather : List ℕ → Stream → Stream =
          λ f s. record s { fragments = f ++ frame.payload } in
        let fragments = (stream_at c i).fragments in
        let whole = fragments ++ frame.payload in
        let clear : Stream → Stream = λ s. record s { fragments = [] } in
        let gathered : Client = set_stream i (gather fragments (stream_at c i)) c in
        let cleared : Client → Client = λ d. set_stream i (clear (stream_at d i)) d in
        let pick : List ℕ → Client → Client =
          λ w d. if frame.fin then cleared (on_message hex now i w d) else d in
        let same_fragments =
          get_or-amend no_stream (λ s. s.fragments) (buffer bytes) i c.streams (λ s. refl) in
        let moved =
          ap (λ ss. record c { streams = ss })
            (amend-commutes no_stream (gather fragments) (buffer bytes) i c.streams (λ s. refl)) in
        let answered = on_message hex now i whole gathered in
        let told = on_message-with_received hex whole gathered in
        let clears =
          ap (λ ss. record answered { streams = ss })
            (amend-commutes no_stream clear (buffer bytes) i answered.streams (λ s. refl)) in
        let picked : pick whole (with_received i bytes gathered)
            ≡ with_received i bytes (pick whole gathered) =
          elim (Bool-cases frame.fin) [
            | inl fin ↦ rw (fin) (ap cleared told ∙ clears)
            | inr more ↦ rw (more) refl
          ] in
        ap
          (λ f. pick (f ++ frame.payload) (
            set_stream i (gather f (stream_at (with_received i bytes c) i))
              (with_received i bytes c)))
          same_fragments
        ∙ (ap (pick whole) moved ∙ picked)

    heard-with_received :
        (frame : Frame) (c : Client)
        → heard net hex now i frame (with_received i bytes c)
          ≡ with_received i bytes (heard net hex now i frame c)
    heard-with_received frame c =
        let told = on_data_frame-with_received frame c in
        elim (Bool-cases (is_data net hex frame.opcode)) [
          | inl message ↦ rw (message) told
          | inr other ↦ rw (other) refl
        ]

    take_frames-with_received :
        (frames : List Frame) (c : Client)
        → All IsUnanswered frames
        → take_frames net hex now i false frames (with_received i bytes c)
          ≡ with_received i bytes (take_frames net hex now i false frames c)
    unfolding take_frames
    take_frames-with_received [] c v = refl
    take_frames-with_received (frame ∷ frames) c v =
        take_next net hex now i false frame frames frame.opcode (with_received i bytes c) refl v.0
        ∙ (ap (take_frames net hex now i false frames) (heard-with_received frame c)
            ∙ (take_frames-with_received frames (heard net hex now i frame c) v.1
                ∙ ap (with_received i bytes)
                    (sym (take_next net hex now i false frame frames frame.opcode c refl v.0))))

module _ (net : Network) (hex : Hex) (now i : ℕ) where
  take_frames-append :
      (end_stream : Bool) (fs gs : List Frame) (c : Client)
      → All IsUnanswered fs
      → take_frames net hex now i end_stream (fs ++ gs) c
        ≡ take_frames net hex now i end_stream gs (take_frames net hex now i false fs c)
  unfolding take_frames
  take_frames-append end_stream [] gs c v = refl
  take_frames-append end_stream (frame ∷ fs) gs c v =
      let next = heard net hex now i frame c in
      take_next net hex now i end_stream frame (fs ++ gs) frame.opcode c refl v.0
      ∙ (take_frames-append end_stream fs gs next v.1
          ∙ ap (take_frames net hex now i end_stream gs)
              (sym (take_next net hex now i false frame fs frame.opcode c refl v.0)))

  on_message_keeps :
      {B : Type 0} (g : Stream → B) (payload : List ℕ) (c : Client)
      → ((s : Stream) (queue : List InflightMessage) → g (record s { inflight = queue }) ≡ g s)
      → g (stream_at (on_message hex now i payload c) i) ≡ g (stream_at c i)
  unfolding on_message on_answer
  on_message_keeps g payload c e =
      elim (Option-cases (look_up (sequence_of hex payload) (stream_at c i).inflight)) [
        | inl missing ↦ rw (missing) refl
        | inr ((message, rest), found) ↦ rw (found) (
            get_or-amend no_stream g (λ s. record s { inflight = rest }) i c.streams
              (λ s. e s rest))
      ]

  -- What of its stream a message does not change.
  on_data_frame_keeps :
      {B : Type 0} (g : Stream → B) (frame : Frame) (c : Client)
      → ((s : Stream) (queue : List InflightMessage) → g (record s { inflight = queue }) ≡ g s)
      → ((s : Stream) (bytes : List ℕ) → g (record s { fragments = bytes }) ≡ g s)
      → g (stream_at (on_data_frame net hex now i frame c) i) ≡ g (stream_at c i)
  unfolding on_data_frame
  on_data_frame_keeps g frame c e h =
      let whole = (stream_at c i).fragments ++ frame.payload in
      let gathered : Client = set_stream i (record (stream_at c i) { fragments = whole }) c in
      let answered = on_message hex now i whole gathered in
      let gathers =
        get_or-amend no_stream g (λ s. record s { fragments = whole }) i c.streams
          (λ s. h s whole) in
      let clears =
        get_or-amend no_stream g (λ s. record s { fragments = [] }) i answered.streams
          (λ s. h s []) in
      elim (Bool-cases frame.fin) [
        | inl fin ↦ rw (fin) (clears ∙ (on_message_keeps g whole gathered e ∙ gathers))
        | inr more ↦ rw (more) gathers
      ]

  take_frames_keep :
      {B : Type 0} (g : Stream → B) (frames : List Frame) (c : Client)
      → ((s : Stream) (queue : List InflightMessage) → g (record s { inflight = queue }) ≡ g s)
      → ((s : Stream) (bytes : List ℕ) → g (record s { fragments = bytes }) ≡ g s)
      → All IsUnanswered frames
      → g (stream_at (take_frames net hex now i false frames c) i) ≡ g (stream_at c i)
  unfolding take_frames
  take_frames_keep g [] c e h v = refl
  take_frames_keep g (frame ∷ frames) c e h v =
      let next = heard net hex now i frame c in
      let one = on_data_frame_keeps g frame c e h in
      let first : g (stream_at next i) ≡ g (stream_at c i) =
        elim (Bool-cases (is_data net hex frame.opcode)) [
          | inl message ↦ rw (message) one
          | inr other ↦ rw (other) refl
        ] in
      ap (λ d. g (stream_at d i))
        (take_next net hex now i false frame frames frame.opcode c refl v.0)
      ∙ (take_frames_keep g frames next e h v.1 ∙ first)

  -- The frames that the decoder found, on a stream whose buffer holds what is left.
  fed_frames :
      (end_stream : Bool) (fed : Fed) (c : Client)
      → fed.ok ≡ true
      → on_fed net hex now i end_stream fed c
        ≡ take_frames net hex now i end_stream fed.frames (with_received i fed.left c)
  unfolding on_fed
  fed_frames end_stream fed c ok = rw (ok) refl

  -- Data that the network cuts in two has the effect of the whole on a stream that is open or
  -- closing, whether the stream ends with it or not, if the decoder accepts the first piece and
  -- the whole, and the frames of the first piece are none that the client answers: a Ping, or a
  -- Close.
  pub on_response_data-append :
      (bytes more : List ℕ) (end_stream : Bool) (c : Client)
      → is_live (stream_at c i).state ≡ true
      → (feed ((stream_at c i).received ++ bytes)).ok ≡ true
      → (feed ((stream_at c i).received ++ (bytes ++ more))).ok ≡ true
      → All IsUnanswered (feed ((stream_at c i).received ++ bytes)).frames
      → on_response_data net hex now i (bytes ++ more) end_stream c
        ≡ on_response_data net hex now i more end_stream
            (on_response_data net hex now i bytes false c)
  on_response_data-append bytes more end_stream c live ok all_ok v =
      let before = (stream_at c i).received in
      let first = feed (before ++ bytes) in
      let rest = feed (first.left ++ more) in
      let d = take_frames net hex now i false first.frames c in
      let whole : feed (before ++ (bytes ++ more))
          ≡ record rest { frames = first.frames ++ rest.frames } =
        ap feed (sym (append_assoc before bytes more)) ∙ feed-append (before ++ bytes) more ok in
      let rest_ok : rest.ok ≡ true = sym (ap (λ f. f.ok) whole) ∙ all_ok in
      let swap : (left : List ℕ)
          → take_frames net hex now i false first.frames (with_received i left c)
            ≡ with_received i left d =
        λ left. take_frames-with_received now i left net hex first.frames c v in
      let live_after : is_live (stream_at d i).state ≡ true =
        take_frames_keep (λ s. is_live s.state) first.frames c (λ s q. refl) (λ s f. refl) v
        ∙ live in
      let there =
        counted_in_range (λ s. one_if (is_live s.state)) no_stream i d.streams refl
          (rw (live_after) (omega arith)) in
      let held : stream_at (with_received i first.left d) i ≡ buffer first.left (stream_at d i) =
        get_or-update_at no_stream i (buffer first.left (stream_at d i)) d.streams there in
      let once =
        live_data net hex now i (bytes ++ more) end_stream c live
        ∙ (ap (λ f. on_fed net hex now i end_stream f c) whole
            ∙ (fed_frames end_stream (record rest { frames = first.frames ++ rest.frames }) c
                  rest_ok
                ∙ (take_frames-append end_stream first.frames rest.frames
                      (with_received i rest.left c) v
                    ∙ ap (take_frames net hex now i end_stream rest.frames) (swap rest.left)))) in
      let first_piece =
        live_data net hex now i bytes false c live
        ∙ (fed_frames false first c ok ∙ swap first.left) in
      let second_piece =
        live_data net hex now i more end_stream (with_received i first.left d)
          (ap (λ s. is_live s.state) held ∙ live_after)
        ∙ (ap
              (λ r.
                on_fed net hex now i end_stream (feed (r ++ more)) (with_received i first.left d))
              (ap (λ s. s.received) held)
            ∙ (fed_frames end_stream rest (with_received i first.left d) rest_ok
                ∙ ap
                    (λ ss.
                      take_frames net hex now i end_stream rest.frames (record d { streams = ss }))
                    (amend_over no_stream (buffer rest.left) (buffer first.left) i d.streams
                      (λ s. refl)))) in
      once ∙ sym (ap (on_response_data net hex now i more end_stream) first_piece ∙ second_piece)
