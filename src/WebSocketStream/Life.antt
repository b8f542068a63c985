-- ===== src/WebSocketStream/Life.antt =====
-- The life of a WebSocketStreamBenchmarkClientImpl: prepare(), finish() and terminate()
-- (engine/source/client/websocket_stream_client_impl.cc).
use sortie.Prelude.Words.{sub32, add64}
use sortie.Prelude.{
  zero, suc, ℕ, ◌+◌, ◌*◌, ◌/◌, true, false, not, ◌&&◌, Option, none, some, List, ◌∷◌, ◌==◌,
  if◌then◌else◌, length,
}
use sortie.RateLimiter.{aborts, done, Outcome}
use sortie.WebSocket.{close_frame}
use sortie.WebSocketStream.{
  stream_closing, stream_closed, awaits_nothing, awaits_opens, awaits_closes, Client, Network,
  stream_at, set_stream,
}
use sortie.WebSocketStream.Streams.{
  is_open, is_live, is_closed, is_opening, close_stream, reset_stream, open_stream,
  complete_inflight, open_failed, open_streams,
}
use sortie.WebSocketStream.Messages.{send}

-- dispatcher_.run(): what happens until dispatcher_.exit() is a function of the client.
module _ (net : Network) (dispatch : Client → Client) where
  -- The streams from `i` on, `n` of them.
  unfoldable pub open_all : ℕ → ℕ → Client → Client
  unfolding open_stream
  open_all i zero c = c
  open_all i (suc n) c = open_all (i + 1) n (open_stream net i c)

  -- A stream that still opens when the wait is over.
  unfoldable pub give_up : ℕ → Client → Client
  unfolding close_stream reset_stream
  give_up i c =
      let stream = stream_at c i in
      let uncancelled = set_stream i (record stream { cancellable = false }) (open_failed c) in
      let shut = close_stream i uncancelled in
      if not (is_opening stream.state)
      then c
      else if stream.encoder
      then reset_stream true i shut
      else if stream.cancellable
      then record shut { cancelled = i ∷ shut.cancelled }
      else shut

  unfoldable pub give_up_all : ℕ → ℕ → Client → Client
  unfolding give_up
  give_up_all i zero c = c
  give_up_all i (suc n) c = give_up_all (i + 1) n (give_up i c)

  -- The wait for the upgrades; open_timeout_ counts seconds.
  unfoldable pub await_opens : Client → Client
  await_opens c =
      record (dispatch
        (record c { waiting_for = awaits_opens; wait_timer = some (c.open_timeout * 1_000) })) {
          waiting_for = awaits_nothing;
          wait_timer = none;
        }

  -- prepare(): the body of the request, if there is one.
  unfoldable pub prepare : Option (List ℕ) → Client → Outcome Client
  unfolding open_all await_opens give_up_all
  prepare none c = aborts
  prepare (some body) c =
      let opening = open_all 0 c.stream_count (record c { message = body }) in
      let waited = await_opens opening in
      done
        (if opening.pending_opens == 0 then opening else give_up_all 0 waited.stream_count waited)

  unfoldable pub start_closing : ℕ → Client → Client
  unfolding send close_frame
  start_closing i c =
      let asked = send net i (close_frame 1000) c in
      if is_open (stream_at c i).state && (stream_at c i).encoder
      then set_stream i (record (stream_at asked i) { state = stream_closing }) asked
      else c

  unfoldable pub start_closing_all : ℕ → ℕ → Client → Client
  unfolding start_closing
  start_closing_all i zero c = c
  start_closing_all i (suc n) c = start_closing_all (i + 1) n (start_closing i c)

  -- The wait for the echoes and the server's Close; drain_duration_ counts nanoseconds.
  unfoldable pub await_closes : Client → Client
  await_closes c =
      record (dispatch (record c {
        waiting_for = awaits_closes;
        wait_timer = some ((c.drain_duration + 999_999) / 1_000_000);
      })) { waiting_for = awaits_nothing; wait_timer = none }

  -- A stream that the server did not close in time.
  unfoldable pub write_off : ℕ → Client → Client
  unfolding complete_inflight
  write_off i c =
      let n = c.counters in
      if is_live (stream_at c i).state
      then complete_inflight false i (record c {
        counters = record n { stream_drain_incomplete = add64 n.stream_drain_incomplete 1 };
      })
      else c

  unfoldable pub write_off_all : ℕ → ℕ → Client → Client
  unfolding write_off
  write_off_all i zero c = c
  write_off_all i (suc n) c = write_off_all (i + 1) n (write_off i c)

  unfoldable pub finish : Client → Client
  unfolding start_closing_all await_closes write_off_all open_streams
  finish c =
      let closing = start_closing_all 0 (length c.streams) (record c { finished = true }) in
      let waited = await_closes closing in
      if c.finished
      then c
      else if open_streams closing == 0
      then closing
      else write_off_all 0 (length waited.streams) waited

  unfoldable pub cut_short : ℕ → Client → Client
  unfolding complete_inflight reset_stream
  cut_short i c =
      let stream = stream_at c i in
      let cancelled =
        record (set_stream i (record stream { cancellable = false; state = stream_closed }) c) {
          cancelled = i ∷ c.cancelled;
          pending_opens = sub32 c.pending_opens 1;
        } in
      let settled =
        record (set_stream i (record stream { state = stream_closed; encoder = false }) c) {
          pending_opens =
              if is_opening stream.state then sub32 c.pending_opens 1 else c.pending_opens;
        } in
      if is_opening stream.state && (not stream.encoder && stream.cancellable)
      then cancelled
      else if is_closed stream.state
      then c
      else reset_stream stream.encoder i (complete_inflight false i settled)

  unfoldable pub cut_short_all : ℕ → ℕ → Client → Client
  unfolding cut_short
  cut_short_all i zero c = c
  cut_short_all i (suc n) c = cut_short_all (i + 1) n (cut_short i c)

  unfoldable pub terminate : Client → Client
  unfolding finish cut_short_all
  terminate c =
      let over = record (finish c) { measure_latencies = false } in
      cut_short_all 0 over.stream_count over
