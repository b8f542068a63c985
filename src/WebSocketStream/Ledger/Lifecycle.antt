-- ===== src/WebSocketStream/Ledger/Lifecycle.antt =====
-- The books of a WebSocketStreamBenchmarkClientImpl through prepare() and finish()
-- (engine/source/client/websocket_stream_client_impl.cc).
use sortie.WebSocketStream.Ledger.Completing.{complete_inflight-Books, close_stream-Books}
use sortie.WebSocketStream.Ledger.Sending.{send-Books}
use sortie.WebSocketStream.Messages.{send}
use sortie.WebSocketStream.Ledger.Opening.{reset_stream-Books, touched-BooksAt, open_stream-Books}
use sortie.Prelude.Words.{add64}
use sortie.WebSocketStream.Life.{
  prepare, finish, await_closes, await_opens, write_off_all, write_off, start_closing_all,
  start_closing, give_up_all, give_up, open_all,
}
use sortie.Prelude.Updates.{total}
use sortie.Prelude.{
  get_or, zero, suc, ℕ, ◌+◌, ◌*◌, ◌/◌, ◌≡◌, refl, inl, inr, Bool, true, false, not, ◌&&◌, Option,
  none, some, List, [], ◌∷◌, arith, ltb, ◌==◌, if◌then◌else◌, Bool-cases, length, All,
}
use mathlib.Core.Path.{subst}
use sortie.Prelude.Hex.{Hex}
use sortie.RateLimiter.{done, outcome_or}
use sortie.WebSocket.{close_frame}
use sortie.WebSocketStream.{
  awaits_opens, awaits_closes, stream_closing, Network, Upgrade, Stream, Client, no_stream,
  stream_at, set_stream, new_streams, websocket_stream_client,
}
use sortie.WebSocketStream.Streams.{
  reset_stream, complete_inflight, close_stream, open_failed, is_opening, is_open, is_live,
  open_stream, open_streams,
}
use sortie.WebSocketStream.Ledger.{
  waits, set_stream-BooksAt, stream_at-Fits, if-Books, in_flight, Fits, Books,
}
use sortie.WebSocketStream.Ledger.History.{Run, Run-Books}

idle_stream :
    (i : ℕ) (streams : List Stream)
    → total in_flight streams ≡ 0
    → in_flight (get_or no_stream i streams) ≡ 0
idle_stream i [] e = refl
idle_stream zero (s ∷ streams) e = omega (arith, e)
idle_stream (suc i) (s ∷ streams) e = idle_stream i streams (omega (arith, e))

module _ (net : Network) (dispatch : Client → Client) where
  -- No request was made while the streams open, so that nothing is in flight.
  open_all-Books : (i n : ℕ) (c : Client) → Books [] c → Books [] (open_all net dispatch i n c)
  unfolding open_all
  open_all-Books i zero c v = v
  open_all-Books i (suc n) c v =
      open_all-Books (i + 1) n (open_stream net i c)
        (open_stream-Books [] net i c (idle_stream i c.streams (omega (arith, v.calls))) v)

module _ (net : Network) (dispatch : Client → Client) (requests : List ℕ) where
  give_up-Books :
      (i : ℕ) (c : Client) → Books requests c → Books requests (give_up net dispatch i c)
  unfolding give_up
  give_up-Books i c v =
      let stream = stream_at c i in
      let s = record stream { cancellable = false } in
      let uncancelled = set_stream i s (open_failed c) in
      let shut = close_stream i uncancelled in
      let closed : Books requests shut =
        close_stream-Books requests i uncancelled
          (touched-BooksAt requests c.counters.stream_messages_sent i s c refl refl v) in
      let gone : Client = record shut { cancelled = i ∷ shut.cancelled } in
      if-Books requests (not (is_opening stream.state)) c
        (if stream.encoder
          then reset_stream true i shut
          else if stream.cancellable
          then gone
          else shut)
        v
        (if-Books requests stream.encoder (reset_stream true i shut)
          (if stream.cancellable then gone else shut)
          (reset_stream-Books requests true i shut closed)
          (if-Books requests stream.cancellable gone shut closed closed))

  give_up_all-Books :
      (i n : ℕ) (c : Client) → Books requests c → Books requests (give_up_all net dispatch i n c)
  unfolding give_up_all
  give_up_all-Books i zero c v = v
  give_up_all-Books i (suc n) c v =
      give_up_all-Books (i + 1) n (give_up net dispatch i c) (give_up-Books i c v)

  start_closing-Books :
      (i : ℕ) (c : Client) → Books requests c → Books requests (start_closing net dispatch i c)
  unfolding start_closing
  start_closing-Books i c v =
      let asked = send net i (close_frame 1000) c in
      let kept : Books requests asked = send-Books requests net i (close_frame 1000) c v in
      let s = record (stream_at asked i) { state = stream_closing } in
      let bound = stream_at-Fits requests asked.counters.stream_messages_sent i asked kept in
      let closing : Books requests (set_stream i s asked) =
        set_stream-BooksAt requests asked.counters.stream_messages_sent i s asked refl
          (ground (arith, bound)) kept in
      if-Books requests (is_open (stream_at c i).state && (stream_at c i).encoder)
        (set_stream i s asked) c closing v

  start_closing_all-Books :
      (i n : ℕ) (c : Client)
      → Books requests c
      → Books requests (start_closing_all net dispatch i n c)
  unfolding start_closing_all
  start_closing_all-Books i zero c v = v
  start_closing_all-Books i (suc n) c v =
      start_closing_all-Books (i + 1) n (start_closing net dispatch i c) (start_closing-Books i c v)

  write_off-Books :
      (i : ℕ) (c : Client) → Books requests c → Books requests (write_off net dispatch i c)
  unfolding write_off
  write_off-Books i c v =
      let n = c.counters in
      let late : Client = record c {
        counters = record n { stream_drain_incomplete = add64 n.stream_drain_incomplete 1 };
      } in
      if-Books requests (is_live (stream_at c i).state) (complete_inflight false i late) c
        (complete_inflight-Books requests i late v).0 v

  write_off_all-Books :
      (i n : ℕ) (c : Client) → Books requests c → Books requests (write_off_all net dispatch i n c)
  unfolding write_off_all
  write_off_all-Books i zero c v = v
  write_off_all-Books i (suc n) c v =
      write_off_all-Books (i + 1) n (write_off net dispatch i c) (write_off-Books i c v)

module _ (net : Network) (lib : Upgrade) (hex : Hex) (dispatch : Client → Client)
    (waits : (c : Client) → Run net lib hex [] c (dispatch c)) (requests : List ℕ) where
  dispatch-Books : (c : Client) → Books requests c → Books requests (dispatch c)
  dispatch-Books c v = Run-Books net lib hex requests (waits c) v

  await_opens-Books : (c : Client) → Books requests c → Books requests (await_opens net dispatch c)
  unfolding await_opens
  await_opens-Books c v =
      dispatch-Books
        (record c { waiting_for = awaits_opens; wait_timer = some (c.open_timeout * 1_000) }) v

  await_closes-Books :
      (c : Client) → Books requests c → Books requests (await_closes net dispatch c)
  unfolding await_closes
  await_closes-Books c v =
      dispatch-Books
        (record c {
          waiting_for = awaits_closes;
          wait_timer = some ((c.drain_duration + 999_999) / 1_000_000);
        })
        v

  pub finish-Books : (c : Client) → Books requests c → Books requests (finish net dispatch c)
  unfolding finish
  finish-Books c v =
      let over : Client = record c { finished = true } in
      let closing = start_closing_all net dispatch 0 (length c.streams) over in
      let waited = await_closes net dispatch closing in
      let kept = start_closing_all-Books net dispatch requests 0 (length c.streams) over v in
      let ended = write_off_all net dispatch 0 (length waited.streams) waited in
      if-Books requests c.finished c (if open_streams closing == 0 then closing else ended) v (
        if-Books requests (open_streams closing == 0) closing ended kept (
          write_off_all-Books net dispatch requests 0 (length waited.streams) waited
            (await_closes-Books closing kept)))

module _ (net : Network) (lib : Upgrade) (hex : Hex) (dispatch : Client → Client)
    (waits : (c : Client) → Run net lib hex [] c (dispatch c)) where
  pub prepare-Books :
      (body : Option (List ℕ)) (c p : Client)
      → prepare net dispatch body c ≡ done p
      → Books [] c
      → Books [] p
  unfolding prepare
  prepare-Books none c p made v = absurd (ground (arith, made))
  prepare-Books (some body) c p made v =
      let asked : Client = record c { message = body } in
      let opening = open_all net dispatch 0 c.stream_count asked in
      let kept = open_all-Books net dispatch 0 c.stream_count asked v in
      let waited = await_opens net dispatch opening in
      let settled = give_up_all net dispatch 0 waited.stream_count waited in
      let ready : Books [] (if opening.pending_opens == 0 then opening else settled) =
        if-Books [] (opening.pending_opens == 0) opening settled kept (
          give_up_all-Books net dispatch [] 0 waited.stream_count waited
            (await_opens-Books net lib hex dispatch waits [] opening kept)) in
      subst (λ o. Books [] (outcome_or c o)) made ready

none_waits : (k n : ℕ) → total (waits k) (new_streams n) ≡ 0
none_waits k zero = refl
none_waits k (suc n) = omega (arith, none_waits k n)

new_streams_idle :
    (window n : ℕ)
    → (total in_flight (new_streams n) ≡ 0)
      × (All (Fits window) (new_streams n) × (length (new_streams n) ≡ n))
new_streams_idle window zero = (refl, (tt, refl))
new_streams_idle window (suc n) =
    let rest = new_streams_idle window n in
    (omega (arith, rest.0), ((omega arith, rest.1.0), omega (arith, rest.1.1)))

pub new_client-Books :
    (streams max_inflight drain_duration open_timeout : ℕ) (binary : Bool) (c : Client)
    → websocket_stream_client streams max_inflight drain_duration open_timeout binary ≡ done c
    → Books [] c
unfolding websocket_stream_client
new_client-Books streams max_inflight drain_duration open_timeout binary c made =
    let fresh = new_streams_idle max_inflight streams in
    elim (Bool-cases (ltb 0 streams && ltb 0 max_inflight)) [
      | inr refused ↦ absurd (ground (arith, refused, made))
      | inl fine ↦
          let at = rw (fine) at made in
          subst (λ o. Books [] (outcome_or c o)) at
            (record {
              calls = omega (arith, fresh.0);
              owed = λ k. omega (arith, none_waits k streams);
              messages = omega (arith, fresh.0);
              answers = refl;
              failures = refl;
              fits = fresh.1.0;
              streams_there = fresh.1.1;
            })
    ]
