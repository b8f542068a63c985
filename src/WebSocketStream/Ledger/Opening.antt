-- ===== src/WebSocketStream/Ledger/Opening.antt =====
-- The books while a stream opens, and by what ends it
-- (engine/source/client/websocket_stream_client_impl.cc).
use sortie.Prelude.Updates.{get_or-amend}
use sortie.WebSocketStream.Ledger.Completing.{close_stream-Books, maybe_exit_wait_loop-Books}
use sortie.Prelude.Words.{add32, sub32, add64}
use sortie.Prelude.{
  [], length, sym, ap, List, ℕ, ◌≤◌, ◌≡◌, refl, ◌∙◌, inl, inr, Bool, true, false, not, ◌&&◌, ◌||◌,
  Option, none, some, ◌∷◌, arith, if◌then◌else◌, Bool-cases,
}
use sortie.WebSocketStream.{
  InflightMessage, pool_ready, pool_failure, stream_open, stream_closed, PoolEvent, Network,
  Upgrade, Stream, Client, no_stream, stream_at, set_stream,
}
use sortie.WebSocketStream.Streams.{
  pending, maybe_exit_wait_loop, open_failed, accepted, close_stream, upgrade_settings, open_stream,
  on_pool, on_stream_ready, on_response_headers, on_stream_open_failure, on_write_blocked,
  on_response_end, reset_stream, on_stream_reset, is_opening, is_open, is_closed, is_live, Response,
}
use sortie.WebSocketStream.Ledger.{
  if-Books, set_stream-BooksAt, stream_at-Fits, in_flight, Books, BooksAt,
}

pub none_there : (queue : List InflightMessage) → length queue ≡ 0 → queue ≡ []
none_there [] e = refl
none_there (message ∷ queue) e = absurd (omega (arith, e))

module _ (requests : List ℕ) where
  pub on_stream_reset-Books :
      (i : ℕ) (c : Client) → Books requests c → Books requests (on_stream_reset i c)
  unfolding on_stream_reset
  on_stream_reset-Books i c v =
      let n = c.counters in
      let reset : Client = record c {
        counters = record n { stream_resets = add64 n.stream_resets 1 };
      } in
      let failed : Client = record c {
        counters = record n {
          stream_resets = add64 n.stream_resets 1;
          stream_open_failures = add64 n.stream_open_failures 1;
        };
        pending_opens = sub32 c.pending_opens 1;
      } in
      let opening = is_opening (stream_at c i).state in
      let counted = if opening then failed else reset in
      if-Books requests (is_closed (stream_at c i).state) c (close_stream i counted) v
        (close_stream-Books requests i counted (if-Books requests opening failed reset v v))

  pub reset_stream-Books :
      (encoder : Bool) (i : ℕ) (c : Client)
      → Books requests c
      → Books requests (reset_stream encoder i c)
  unfolding reset_stream
  reset_stream-Books true i c v = on_stream_reset-Books i c v
  reset_stream-Books false i c v = v

  pub on_response_end-Books :
      (i : ℕ) (c : Client) → Books requests c → Books requests (on_response_end i c)
  unfolding on_response_end
  on_response_end-Books i c v =
      let n = c.counters in
      let early : Client = record c {
        counters = record n { stream_early_close = add64 n.stream_early_close 1 };
      } in
      let up = is_open (stream_at c i).state in
      close_stream-Books requests i (if up then early else c) (if-Books requests up early c v v)

  -- A change of a stream that leaves its state and what it has in flight alone.
  pub touched-BooksAt :
      (sent i : ℕ) (s : Stream) (c : Client)
      → s.inflight ≡ (stream_at c i).inflight
      → s.state ≡ (stream_at c i).state
      → BooksAt requests sent c
      → BooksAt requests sent (set_stream i s c)
  touched-BooksAt sent i s c e same v =
      let h : in_flight s ≤ (if is_live s.state then c.max_inflight_per_stream else 0) =
        rw (same) (omega (arith, ap length e, stream_at-Fits requests sent i c v)) in
      set_stream-BooksAt requests sent i s c e h v

  pub on_write_blocked-BooksAt :
      (sent i : ℕ) (blocked : Bool) (c : Client)
      → BooksAt requests sent c
      → BooksAt requests sent (on_write_blocked i blocked c)
  unfolding on_write_blocked
  on_write_blocked-BooksAt sent i blocked c v =
      let s = record (stream_at c i) { write_blocked = blocked } in
      let kept = touched-BooksAt sent i s c refl refl v in
      elim (Bool-cases (blocked && not (stream_at c i).write_blocked)) [
        | inl newly ↦ rw (newly) kept
        | inr already ↦ rw (already) kept
      ]

  pub on_write_blocked-messages_sent :
      (i : ℕ) (blocked : Bool) (c : Client)
      → (on_write_blocked i blocked c).counters.stream_messages_sent
        ≡ c.counters.stream_messages_sent
  unfolding on_write_blocked
  on_write_blocked-messages_sent i blocked c =
      elim (Bool-cases (blocked && not (stream_at c i).write_blocked)) [
        | inl newly ↦ rw (newly) refl
        | inr already ↦ rw (already) refl
      ]

  -- A stream with nothing in flight fits in any state.
  pub idle-Books :
      (i : ℕ) (s : Stream) (c : Client)
      → in_flight (stream_at c i) ≡ 0
      → in_flight s ≡ 0
      → Books requests c
      → Books requests (set_stream i s c)
  idle-Books i s c e none_left v =
      set_stream-BooksAt requests c.counters.stream_messages_sent i s c
        (none_there s.inflight none_left ∙ sym (none_there (stream_at c i).inflight e))
        (omega (arith, none_left)) v

  pub opening_idle :
      (i : ℕ) (c : Client)
      → is_opening (stream_at c i).state ≡ true
      → Books requests c
      → in_flight (stream_at c i) ≡ 0
  opening_idle i c opening v =
      let h = stream_at-Fits requests c.counters.stream_messages_sent i c v in
      let waits : is_live (stream_at c i).state ≡ false = ground arith in
      let bound : in_flight (stream_at c i) ≤ 0 = rw (waits) at h in omega (arith, bound)

  pub on_stream_open_failure-Books :
      (i : ℕ) (c : Client)
      → in_flight (stream_at c i) ≡ 0
      → Books requests c
      → Books requests (on_stream_open_failure i c)
  unfolding on_stream_open_failure
  on_stream_open_failure-Books i c e v =
      let s = record (stream_at c i) { cancellable = false; state = stream_closed } in
      maybe_exit_wait_loop-Books requests (open_failed (set_stream i s c)) (idle-Books i s c e e v)

  pub on_response_headers-Books :
      (lib : Upgrade) (i : ℕ) (r : Response) (end_stream : Bool) (c : Client)
      → Books requests c
      → Books requests (on_response_headers lib i r end_stream c)
  unfolding on_response_headers
  on_response_headers-Books lib i r end_stream c v =
      let stream = stream_at c i in
      let n = c.counters in
      let settled : Client = record c { pending_opens = sub32 c.pending_opens 1 } in
      let rejected : Client = record settled {
        counters = record n { stream_upgrade_rejected = add64 n.stream_upgrade_rejected 1 };
      } in
      let s = record stream { state = stream_open } in
      let up : Client = record (set_stream i s settled) {
        counters = record n { streams_opened = add64 n.streams_opened 1 };
      } in
      let refused =
        reset_stream-Books (stream.encoder && not end_stream) i (close_stream i rejected)
          (close_stream-Books requests i rejected v) in
      elim (Bool-cases (is_opening stream.state)) [
        | inr other ↦ rw (other) v
        | inl opening ↦
            let e = opening_idle i c opening v in
            rw (opening) (
              if-Books requests (not (accepted lib stream.key r) || end_stream)
                (reset_stream (stream.encoder && not end_stream) i (close_stream i rejected))
                (maybe_exit_wait_loop up) refused
                (maybe_exit_wait_loop-Books requests up (idle-Books i s c e e v)))
      ]

  module _ (net : Network) where
    pub on_stream_ready-Books :
        (i : ℕ) (c : Client) → Books requests c → Books requests (on_stream_ready net i c)
    unfolding on_stream_ready
    on_stream_ready-Books i c v =
        let s = record (stream_at c i) { cancellable = false; encoder = true } in
        let asked : Client = record (set_stream i s c) {
          handshakes = (i, upgrade_settings s.key) ∷ c.handshakes;
        } in
        let kept = touched-BooksAt c.counters.stream_messages_sent i s c refl refl v in
        if-Books requests (net.encodes_headers asked i) asked (close_stream i (open_failed asked))
          kept (close_stream-Books requests i (open_failed asked) kept)

    on_pool-Books :
        (raised : Option PoolEvent) (i : ℕ) (c : Client)
        → in_flight (stream_at c i) ≡ 0
        → Books requests c
        → Books requests (on_pool net raised i c)
    unfolding on_pool
    on_pool-Books none i c e v = v
    on_pool-Books (some pool_ready) i c e v = on_stream_ready-Books i c v
    on_pool-Books (some pool_failure) i c e v = on_stream_open_failure-Books i c e v

    pub open_stream-Books :
        (i : ℕ) (c : Client)
        → in_flight (stream_at c i) ≡ 0
        → Books requests c
        → Books requests (open_stream net i c)
    unfolding open_stream
    open_stream-Books i c e v =
        let n = c.counters in
        let stream = stream_at c i in
        let shut = record stream { state = stream_closed } in
        let down : Client = record (set_stream i shut c) {
          counters = record n { stream_open_failures = add64 n.stream_open_failures 1 };
        } in
        let k = record stream { key = net.new_key c i } in
        let keyed : Client = record (set_stream i k c) {
          pending_opens = add32 c.pending_opens 1;
        } in
        let raised = net.pool_raises keyed i in
        let after = on_pool net raised i keyed in
        let still_idle : in_flight (stream_at keyed i) ≡ 0 =
          get_or-amend no_stream in_flight (λ s. record s { key = net.new_key c i }) i c.streams
            (λ s. refl)
          ∙ e in
        let kept : Books requests after =
          on_pool-Books raised i keyed still_idle (idle-Books i k c e e v) in
        let s = stream_at after i in
        let held = record s { cancellable = pending net raised } in
        let cancellable =
          touched-BooksAt after.counters.stream_messages_sent i held after refl refl kept in
        if-Books requests (not (net.has_pool c i)) down
          (if is_opening s.state && not s.encoder then set_stream i held after else after)
          (idle-Books i shut c e e v)
          (if-Books requests (is_opening s.state && not s.encoder) (set_stream i held after) after
            cancellable kept)
