-- ===== src/WebSocketStream/Streams.antt =====
-- How the streams of a WebSocketStreamBenchmarkClientImpl open and close
-- (engine/source/client/websocket_stream_client_impl.cc).
use sortie.Prelude.Words.{add32, sub32, u32_mod, add64}
use sortie.Prelude.{
  same_bytes, ℕ, ◌+◌, ◌%◌, Bool, true, false, not, ◌&&◌, ◌||◌, Option, none, some, List, [], ◌∷◌,
  ◌==◌, if◌then◌else◌, one_if,
}
use sortie.WebSocketStream.{
  stream_opening, stream_open, stream_closing, stream_closed, awaits_nothing, awaits_opens,
  awaits_closes, pool_ready, pool_failure, method_get, connection_upgrade, upgrade_websocket,
  version_13, websocket_key, StreamState, InflightMessage, Stream, Setting, Client, PoolEvent,
  Network, Upgrade, stream_at, set_stream,
}

abbrev pub is_opening : StreamState → Bool
is_opening stream_opening = true
is_opening _ = false

abbrev pub is_open : StreamState → Bool
is_open stream_open = true
is_open _ = false

abbrev pub is_closed : StreamState → Bool
is_closed stream_closed = true
is_closed _ = false

-- Open or Closing.
abbrev pub is_live : StreamState → Bool
is_live stream_open = true
is_live stream_closing = true
is_live _ = false

abbrev pub is_empty : {A : Type 0} → List A → Bool
is_empty [] = true
is_empty (x ∷ xs) = false

-- The loop of completeInflight(), over what is in flight.
unfoldable pub complete_queue : Bool → ℕ → List InflightMessage → Client → Client
complete_queue success i [] c = c
complete_queue success i (message ∷ rest) c =
    complete_queue success i rest
      (record (set_stream i (record (stream_at c i) { inflight = rest }) c) {
        counters = if success then c.counters else record c.counters {
          stream_inflight_lost = add64 c.counters.stream_inflight_lost 1;
        };
        completed = (message.completion_callback, success) ∷ c.completed;
      })

unfoldable pub complete_inflight : Bool → ℕ → Client → Client
unfolding complete_queue
complete_inflight success i c = complete_queue success i (stream_at c i).inflight c

abbrev pub count_live : List Stream → ℕ
count_live [] = 0
count_live (stream ∷ streams) = one_if (is_live stream.state) + count_live streams

-- openStreams().
unfoldable pub open_streams : Client → ℕ
open_streams c = count_live c.streams % u32_mod

unfoldable pub maybe_exit_wait_loop : Client → Client
unfolding open_streams
maybe_exit_wait_loop c = elim c.waiting_for [
  | awaits_nothing ↦ c
  | awaits_opens ↦ if c.pending_opens == 0 then record c { exits = true } else c
  | awaits_closes ↦ if open_streams c == 0 then record c { exits = true } else c
]

-- Closed, with no encoder.
abbrev pub shut : ℕ → Client → Client
shut i c = set_stream i (record (stream_at c i) { state = stream_closed; encoder = false }) c

unfoldable pub close_stream : ℕ → Client → Client
unfolding complete_inflight maybe_exit_wait_loop
close_stream i c =
    if is_closed (stream_at c i).state
    then c
    else maybe_exit_wait_loop (complete_inflight false i (shut i c))

unfoldable pub on_stream_reset : ℕ → Client → Client
unfolding close_stream
on_stream_reset i c =
    let n = c.counters in
    let reset = record c { counters = record n { stream_resets = add64 n.stream_resets 1 } } in
    let failed = record c {
      counters = record n {
        stream_resets = add64 n.stream_resets 1;
        stream_open_failures = add64 n.stream_open_failures 1;
      };
      pending_opens = sub32 c.pending_opens 1;
    } in
    if is_closed (stream_at c i).state
    then c
    else close_stream i (if is_opening (stream_at c i).state then failed else reset)

-- resetStream() on an encoder that is there: onResetStream() is called before it returns.
unfoldable pub reset_stream : Bool → ℕ → Client → Client
unfolding on_stream_reset
reset_stream encoder i c = if encoder then on_stream_reset i c else c

unfoldable pub on_response_end : ℕ → Client → Client
unfolding close_stream
on_response_end i c =
    let n = c.counters in
    close_stream i (
      if is_open (stream_at c i).state
      then record c { counters = record n { stream_early_close = add64 n.stream_early_close 1 } }
      else c)

unfoldable pub on_write_blocked : ℕ → Bool → Client → Client
on_write_blocked i blocked c =
    let n = c.counters in
    record (set_stream i (record (stream_at c i) { write_blocked = blocked }) c) {
      counters =
          if blocked && not (stream_at c i).write_blocked
          then record n { stream_write_blocked = add64 n.stream_write_blocked 1 }
          else n;
    }

unfoldable pub upgrade_settings : List ℕ → List Setting
upgrade_settings key =
    method_get ∷ connection_upgrade ∷ upgrade_websocket ∷ version_13 ∷ websocket_key key ∷ []

-- One upgrade that came to nothing.
abbrev pub open_failed : Client → Client
open_failed c = record c {
  counters = record c.counters { stream_open_failures = add64 c.counters.stream_open_failures 1 };
  pending_opens = sub32 c.pending_opens 1;
}

unfoldable pub on_stream_open_failure : ℕ → Client → Client
unfolding maybe_exit_wait_loop
on_stream_open_failure i c = maybe_exit_wait_loop (
    open_failed
      (set_stream i (record (stream_at c i) { cancellable = false; state = stream_closed }) c))

-- A response's headers: the status, the values of Upgrade and Connection, and every value of
-- Sec-WebSocket-Accept.
pub record Response : Type 0 where
  pub status : ℕ
  pub upgrade : Option (List ℕ)
  pub connection : Option (List ℕ)
  pub accept : List (List ℕ)

module _ (lib : Upgrade) where
  abbrev pub upgrade_header_ok : Option (List ℕ) → Bool
  upgrade_header_ok none = false
  upgrade_header_ok (some value) = lib.equals_ignore_case value lib.websocket_value

  abbrev pub names_upgrade : List (List ℕ) → Bool
  names_upgrade [] = false
  names_upgrade (token ∷ tokens) =
      lib.equals_ignore_case (lib.strip_ascii_whitespace token) lib.upgrade_value
      || names_upgrade tokens

  abbrev pub connection_header_ok : Option (List ℕ) → Bool
  connection_header_ok none = false
  connection_header_ok (some value) = names_upgrade (lib.split_commas value)

  abbrev pub accept_ok : List ℕ → List (List ℕ) → Bool
  accept_ok key (value ∷ []) = same_bytes value (lib.accept_key key)
  accept_ok key _ = false

  unfoldable pub accepted : List ℕ → Response → Bool
  accepted key r =
      r.status == 101
      && (upgrade_header_ok r.upgrade
          && (connection_header_ok r.connection && accept_ok key r.accept))

  unfoldable pub on_response_headers : ℕ → Response → Bool → Client → Client
  unfolding accepted close_stream reset_stream maybe_exit_wait_loop
  on_response_headers i r end_stream c =
      let stream = stream_at c i in
      let n = c.counters in
      let settled = record c { pending_opens = sub32 c.pending_opens 1 } in
      let rejected = record settled {
        counters = record n { stream_upgrade_rejected = add64 n.stream_upgrade_rejected 1 };
      } in
      let opened = record (set_stream i (record stream { state = stream_open }) settled) {
        counters = record n { streams_opened = add64 n.streams_opened 1 };
      } in
      if not (is_opening stream.state)
      then c
      else if not (accepted stream.key r) || end_stream
      then reset_stream (stream.encoder && not end_stream) i (close_stream i rejected)
      else maybe_exit_wait_loop opened

module _ (net : Network) where
  -- The request's headers are the generated request's, with these settings on top.
  unfoldable pub on_stream_ready : ℕ → Client → Client
  unfolding upgrade_settings close_stream
  on_stream_ready i c =
      let stream = record (stream_at c i) { cancellable = false; encoder = true } in
      let asked = record (set_stream i stream c) {
        handshakes = (i, upgrade_settings stream.key) ∷ c.handshakes;
      } in
      if net.encodes_headers asked i then asked else close_stream i (open_failed asked)

  -- The callback that newStream() makes before it returns, if it does.
  unfoldable pub on_pool : Option PoolEvent → ℕ → Client → Client
  unfolding on_stream_ready on_stream_open_failure
  on_pool none i c = c
  on_pool (some pool_ready) i c = on_stream_ready i c
  on_pool (some pool_failure) i c = on_stream_open_failure i c

  -- newStream() gives a handle unless it called back.
  abbrev pub pending : Option PoolEvent → Bool
  pending none = true
  pending (some event) = false

  unfoldable pub open_stream : ℕ → Client → Client
  unfolding on_pool
  open_stream i c =
      let n = c.counters in
      let stream = stream_at c i in
      let keyed = record (set_stream i (record stream { key = net.new_key c i }) c) {
        pending_opens = add32 c.pending_opens 1;
      } in
      let raised = net.pool_raises keyed i in
      let after = on_pool raised i keyed in
      let s = stream_at after i in
      if not (net.has_pool c i)
      then record (set_stream i (record stream { state = stream_closed }) c) {
        counters = record n { stream_open_failures = add64 n.stream_open_failures 1 };
      }
      else if is_opening s.state && not s.encoder
      then set_stream i (record s { cancellable = pending raised }) after
      else after
