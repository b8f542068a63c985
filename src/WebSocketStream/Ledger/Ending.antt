-- ===== src/WebSocketStream/Ledger/Ending.antt =====
-- The books of a WebSocketStreamBenchmarkClientImpl over its whole life
-- (engine/source/client/websocket_stream_client_impl.cc).
use mathlib.Core.List.{append-nil}
use sortie.WebSocketStream.Ledger.Completing.{completed-Books}
use sortie.WebSocketStream.Ledger.Opening.{none_there, idle-Books, opening_idle, reset_stream-Books}
use sortie.WebSocketStream.Ledger.Lifecycle.{prepare-Books, finish-Books, new_client-Books}
use mathlib.Core.Path.{subst}
use sortie.Prelude.Words.{sub32, u64_mod}
use sortie.WebSocketStream.Life.{finish, prepare, terminate, cut_short_all, cut_short}
use sortie.Prelude.Updates.{is_callback, is_call, amend, total}
use sortie.Prelude.{
  ◌++◌, ap, get_or, zero, suc, ℕ, ◌+◌, ◌%◌, ◌≤◌, ◌≡◌, refl, ◌∙◌, inl, inr, Bool, true, false, not,
  ◌&&◌, Option, List, [], ◌∷◌, arith, if◌then◌else◌, Bool-cases, length, All,
}
use sortie.Prelude.Hex.{Hex}
use sortie.RateLimiter.{done}
use sortie.WebSocketStream.{
  stream_closed, Network, Upgrade, InflightMessage, Stream, Client, no_stream, stream_at,
  websocket_stream_client,
}
use sortie.WebSocketStream.Streams.{
  shut, complete_inflight, on_stream_reset, reset_stream, complete_queue, is_opening, is_closed,
  is_live,
}
use sortie.WebSocketStream.Ledger.{
  waits_in, waits, if-Books, popped, in_flight, Fits, Books, successes,
}
use sortie.WebSocketStream.Ledger.History.{Run, counted-Books, Run-Books}

-- The first `k` streams are closed.
abbrev ClosedBelow : ℕ → List Stream → Type 0
ClosedBelow zero streams = Unit
ClosedBelow (suc k) [] = Unit
ClosedBelow (suc k) (s ∷ streams) = (is_closed s.state ≡ true) × ClosedBelow k streams

-- An amendment that opens no stream.
amend-ClosedBelow :
    (f : Stream → Stream) (k i : ℕ) (streams : List Stream)
    → ((s : Stream) → is_closed s.state ≡ true → is_closed (f s).state ≡ true)
    → ClosedBelow k streams
    → ClosedBelow k (amend no_stream i f streams)
amend-ClosedBelow f zero i streams e v = tt
amend-ClosedBelow f (suc k) i [] e v = tt
amend-ClosedBelow f (suc k) zero (s ∷ streams) e v = (e s v.0, v.1)
amend-ClosedBelow f (suc k) (suc i) (s ∷ streams) e v = (v.0, amend-ClosedBelow f k i streams e v.1)

-- One that closes the next.
amend_next-ClosedBelow :
    (f : Stream → Stream) (i : ℕ) (streams : List Stream)
    → ((s : Stream) → is_closed (f s).state ≡ true)
    → ClosedBelow i streams
    → ClosedBelow (suc i) (amend no_stream i f streams)
amend_next-ClosedBelow f i [] e v = tt
amend_next-ClosedBelow f zero (s ∷ streams) e v = (e s, tt)
amend_next-ClosedBelow f (suc i) (s ∷ streams) e v = (v.0, amend_next-ClosedBelow f i streams e v.1)

next-ClosedBelow :
    (i : ℕ) (streams : List Stream)
    → is_closed (get_or no_stream i streams).state ≡ true
    → ClosedBelow i streams
    → ClosedBelow (suc i) streams
next-ClosedBelow i [] e v = tt
next-ClosedBelow zero (s ∷ streams) e v = (e, tt)
next-ClosedBelow (suc i) (s ∷ streams) e v = (v.0, next-ClosedBelow i streams e v.1)

last_closed :
    (i : ℕ) (streams : List Stream)
    → ClosedBelow (suc i) streams
    → is_closed (get_or no_stream i streams).state ≡ true
last_closed i [] v = refl
last_closed zero (s ∷ streams) v = v.0
last_closed (suc i) (s ∷ streams) v = last_closed i streams v.1

-- Closed streams that fit have nothing in flight.
closed_idle :
    (window n : ℕ) (streams : List Stream)
    → length streams ≡ n
    → ClosedBelow n streams
    → All (Fits window) streams
    → total in_flight streams ≡ 0
closed_idle window n [] e v h = refl
closed_idle window zero (s ∷ streams) e v h = absurd (omega (arith, e))
closed_idle window (suc n) (s ∷ streams) e v h =
    let down : is_live s.state ≡ false = let over = v.0 in ground (arith, over) in
    let bound = h.0 in
    let none_left : in_flight s ≤ 0 = rw (down) at bound in
    omega (arith, none_left, closed_idle window n streams (omega (arith, e)) v.1 h.1)

complete_queue-ClosedBelow :
    (k i : ℕ) (q : List InflightMessage) (c : Client)
    → ClosedBelow k c.streams
    → ClosedBelow k (complete_queue false i q c).streams
      × ((complete_queue false i q c).stream_count ≡ c.stream_count)
unfolding complete_queue
complete_queue-ClosedBelow k i [] c v = (v, refl)
complete_queue-ClosedBelow k i (message ∷ rest) c v =
    complete_queue-ClosedBelow k i rest (popped [] false i message rest c)
      (amend-ClosedBelow (λ s. record s { inflight = rest }) k i c.streams (λ s e. e) v)

-- A reset is not heard on a closed stream.
reset_closed :
    (encoder : Bool) (i : ℕ) (c : Client)
    → is_closed (stream_at c i).state ≡ true
    → reset_stream encoder i c ≡ c
unfolding reset_stream on_stream_reset
reset_closed true i c e = rw (e) refl
reset_closed false i c e = refl

module _ (net : Network) (dispatch : Client → Client) where
  cut_short-Books :
      (requests : List ℕ) (i : ℕ) (c : Client)
      → Books requests c
      → Books requests (cut_short net dispatch i c)
  unfolding cut_short
  cut_short-Books requests i c v =
      let stream = stream_at c i in
      let s = record stream { cancellable = false; state = stream_closed } in
      let pending = if is_opening stream.state then sub32 c.pending_opens 1 else c.pending_opens in
      let fewer : Client = record c { pending_opens = pending } in
      let settled = shut i fewer in
      let ended = reset_stream stream.encoder i (complete_inflight false i settled) in
      let kept : Books requests ended =
        reset_stream-Books requests stream.encoder i (complete_inflight false i settled)
          (completed-Books requests i fewer v) in
      elim (Bool-cases (is_opening stream.state && (not stream.encoder && stream.cancellable))) [
        | inl waits ↦
            let opening : is_opening stream.state ≡ true = ground (arith, waits) in
            let e = opening_idle requests i c opening v in
            rw (waits) (idle-Books requests i s c e e v)
        | inr other ↦ rw (other) (if-Books requests (is_closed stream.state) c ended v kept)
      ]

  cut_short_all-Books :
      (requests : List ℕ) (i n : ℕ) (c : Client)
      → Books requests c
      → Books requests (cut_short_all net dispatch i n c)
  unfolding cut_short_all
  cut_short_all-Books requests i zero c v = v
  cut_short_all-Books requests i (suc n) c v =
      cut_short_all-Books requests (i + 1) n (cut_short net dispatch i c)
        (cut_short-Books requests i c v)

  abbrev Cut : ℕ → Client → Client → Type 0
  Cut k c d = ClosedBelow k d.streams × (d.stream_count ≡ c.stream_count)

  cut_short-Cut :
      (i : ℕ) (c : Client) → ClosedBelow i c.streams → Cut (suc i) c (cut_short net dispatch i c)
  unfolding cut_short complete_inflight
  cut_short-Cut i c v =
      let stream = stream_at c i in
      let drop_handle : Stream → Stream =
        λ s. record s { cancellable = false; state = stream_closed } in
      let pending = if is_opening stream.state then sub32 c.pending_opens 1 else c.pending_opens in
      let fewer : Client = record c { pending_opens = pending } in
      let settled = shut i fewer in
      let after = complete_inflight false i settled in
      let cut = complete_queue-ClosedBelow (suc i) i (stream_at settled i).inflight settled (
        amend_next-ClosedBelow (λ s. record s { state = stream_closed; encoder = false }) i
          c.streams (λ s. refl) v) in
      let silent = reset_closed stream.encoder i after (last_closed i after.streams cut.0) in
      elim (Bool-cases (is_opening stream.state && (not stream.encoder && stream.cancellable))) [
        | inl waits ↦
            rw (waits) (amend_next-ClosedBelow drop_handle i c.streams (λ s. refl) v, refl)
        | inr other ↦ elim (Bool-cases (is_closed stream.state)) [
          | inl over ↦ rw (other, over) (next-ClosedBelow i c.streams over v, refl)
          | inr live ↦ rw (other, live, silent) cut
        ]
      ]

  cut_short_all-Cut :
      (i n : ℕ) (c : Client)
      → ClosedBelow i c.streams
      → Cut (i + n) c (cut_short_all net dispatch i n c)
  unfolding cut_short_all
  cut_short_all-Cut i zero c v =
      let e : i ≡ i + 0 = omega arith in (subst (λ k. ClosedBelow k c.streams) e v, refl)
  cut_short_all-Cut i (suc n) c v =
      let step = cut_short-Cut i c v in
      let next : suc i ≡ i + 1 = omega arith in
      let total : i + 1 + n ≡ i + suc n = omega arith in
      let rest =
        cut_short_all-Cut (i + 1) n (cut_short net dispatch i c)
          (subst (λ k. ClosedBelow k (cut_short net dispatch i c).streams) next step.0) in
      (
        subst
            (λ k.
              ClosedBelow k
                (cut_short_all net dispatch (i + 1) n (cut_short net dispatch i c)).streams)
            total rest.0,
        rest.1 ∙ step.1,
      )

-- The books are closed: nothing is in flight.
pub record Balanced (requests : List ℕ) (c : Client) : Type 0 where
  pub calls : length c.completed + length c.posted ≡ length requests
  pub owed :
      (k : ℕ)
      → total (is_call k) c.completed + total (is_call k) c.posted ≡ total (is_callback k) requests
  pub nothing_in_flight : total in_flight c.streams ≡ 0
  pub messages :
      c.counters.stream_messages_sent
      ≡ (c.counters.stream_messages_received + c.counters.stream_inflight_lost) % u64_mod
  pub answers : c.counters.stream_messages_received ≡ successes c.completed % u64_mod
  pub failures : successes c.posted ≡ 0

idle_waits :
    (k : ℕ) (streams : List Stream) → total in_flight streams ≡ 0 → total (waits k) streams ≡ 0
idle_waits k [] e = refl
idle_waits k (s ∷ streams) e =
    let none_left : s.inflight ≡ [] = none_there s.inflight (omega (arith, e)) in
    omega (arith, ap (waits_in k) none_left, idle_waits k streams (omega (arith, e)))

ended-Balanced :
    (requests : List ℕ) (n : ℕ) (d : Client)
    → Books requests d
    → ClosedBelow (0 + n) d.streams
    → d.stream_count ≡ n
    → Balanced requests d
ended-Balanced requests n d books cut e =
    let idle : total in_flight d.streams ≡ 0 =
      closed_idle d.max_inflight_per_stream (0 + n) d.streams
        (omega (arith, books.streams_there, e)) cut books.fits in
    record {
      calls = omega (arith, books.calls, idle);
      owed = λ k. omega (arith, books.owed k, idle_waits k d.streams idle);
      nothing_in_flight = idle;
      messages = omega (arith, books.messages, idle);
      answers = books.answers;
      failures = books.failures;
    }

module _ (net : Network) (lib : Upgrade) (hex : Hex) (dispatch : Client → Client)
    (waits : (c : Client) → Run net lib hex [] c (dispatch c)) where
  terminate-Balanced :
      (requests : List ℕ) (c : Client)
      → Books requests c
      → Balanced requests (terminate net dispatch c)
  unfolding terminate
  terminate-Balanced requests c v =
      let over : Client = record (finish net dispatch c) { measure_latencies = false } in
      let cut = cut_short_all-Cut net dispatch 0 over.stream_count over tt in
      ended-Balanced requests over.stream_count
        (cut_short_all net dispatch 0 over.stream_count over)
        (cut_short_all-Books net dispatch requests 0 over.stream_count over
          (finish-Books net lib hex dispatch waits requests c v))
        cut.0 cut.1

-- A client that is made, prepared, used and terminated, whatever the network does and in whatever
-- order, if only steps without a request happen while it waits in prepare() and terminate():
-- nothing is in flight in the end, every completion callback was called or posted as often as it was
-- handed over, the posted ones report failures, the counters account for every message sent as received or lost,
-- and the received ones are the callbacks that were told of a success.
pub life-Balanced :
    (net : Network) (lib : Upgrade) (hex : Hex) (opening closing : Client → Client)
    (streams max_inflight drain_duration open_timeout : ℕ) (requests : List ℕ) (binary : Bool)
    (body : Option (List ℕ)) (c p used : Client)
    → ((d : Client) → Run net lib hex [] d (opening d))
    → ((d : Client) → Run net lib hex [] d (closing d))
    → websocket_stream_client streams max_inflight drain_duration open_timeout binary ≡ done c
    → prepare net opening body c ≡ done p
    → Run net lib hex requests p used
    → Balanced requests (terminate net closing used)
life-Balanced net lib hex opening closing streams max_inflight drain_duration open_timeout requests
      binary body c p used opens closes made prepared run =
    let fresh = new_client-Books streams max_inflight drain_duration open_timeout binary c made in
    let ready = prepare-Books net lib hex opening opens body c p prepared fresh in
    terminate-Balanced net lib hex closing closes requests used (
      counted-Books (requests ++ []) requests used (append-nil requests)
        (Run-Books net lib hex [] run ready))
