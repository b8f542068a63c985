-- ===== src/WebSocketStream/Ledger.antt =====
-- The books of a WebSocketStreamBenchmarkClientImpl, its completion callbacks and its counters, as
-- numbers (engine/source/client/websocket_stream_client_impl.cc).
pub mod Completing
pub mod Opening
pub mod Sending
pub mod Requests
pub mod History
pub mod Lifecycle
pub mod Ending
use sortie.Prelude.{
  update_at, zero, suc, ℕ, ◌+◌, ◌-◌, ◌*◌, ◌/◌, ◌%◌, ◌≤◌, ◌<◌, min, max, ◌≡◌, refl, sym, ap, ◌∙◌,
  ◌≢◌, ◌↔◌, ◌⊎◌, inl, inr, Bool, true, false, not, ◌&&◌, ◌||◌, Option, none, some, List, [], ◌∷◌,
  ◌++◌, map, arith, ltb, leb, ◌==◌, ==_iff, if◌then◌else◌, Bool-cases, Option-cases, one_if, length,
  take, drop, length-append, take-append, drop-append, All, bit_and, bit_or, bit_xor,
}
use sortie.Prelude.Words.{add64, u64_mod}
use sortie.Prelude.Updates.{
  total-update_same, is_call, is_callback, get_or-update_at, get_or-amend, amend-commutes,
  counted_in_range, total, total-update_at, All-update_at, All-get_or, length-update_at,
}
use sortie.WebSocketStream.{
  awaits_closes, awaits_opens, awaits_nothing, stream_closed, InflightMessage, Stream, Client,
  no_stream, stream_at, set_stream,
}
use sortie.WebSocketStream.Streams.{
  is_closed, open_streams, shut, maybe_exit_wait_loop, complete_inflight, complete_queue,
  close_stream, is_live,
}

abbrev pub in_flight : Stream → ℕ
in_flight stream = length stream.inflight

-- How many of its messages wait with a callback.
abbrev pub waits_in : ℕ → List InflightMessage → ℕ
waits_in k queue = total (λ m. is_callback k m.completion_callback) queue

abbrev pub waits : ℕ → Stream → ℕ
waits k stream = waits_in k stream.inflight

-- A stream that is open or closing has at most `window` messages in flight, another one none.
abbrev pub Fits : ℕ → Stream → Type 0
Fits window stream = in_flight stream ≤ (if is_live stream.state then window else 0)

-- How many of the callbacks were told of a success.
abbrev pub successes : List (ℕ × Bool) → ℕ
successes [] = 0
successes (call ∷ calls) = one_if call.1 + successes calls

-- `requests` are the callbacks that were handed over: each was called, is posted or waits for its
-- answer, as often as it was handed over. What
-- was sent came back, was lost or is in flight, and what came back are the callbacks told of a
-- success, as the 64-bit counters have it.
pub record BooksOf (requests : List ℕ) (window count : ℕ) (completed posted : List (ℕ × Bool))
    (streams : List Stream) (sent received lost : ℕ) : Type 0 where
  pub calls : length completed + length posted + total in_flight streams ≡ length requests
  pub owed :
      (k : ℕ)
      → total (is_call k) completed + total (is_call k) posted + total (waits k) streams
        ≡ total (is_callback k) requests
  pub messages : sent ≡ (received + lost + total in_flight streams) % u64_mod
  pub answers : received ≡ successes completed % u64_mod
  pub failures : successes posted ≡ 0
  pub fits : All (Fits window) streams
  pub streams_there : length streams ≡ count

abbrev pub BooksAt : List ℕ → ℕ → Client → Type 0
BooksAt requests sent c =
    BooksOf requests c.max_inflight_per_stream c.stream_count c.completed c.posted c.streams sent
      c.counters.stream_messages_received c.counters.stream_inflight_lost

abbrev pub Books : List ℕ → Client → Type 0
Books requests c = BooksAt requests c.counters.stream_messages_sent c

module _ (requests : List ℕ) where
  pub if-Books :
      (b : Bool) (c d : Client)
      → Books requests c
      → Books requests d
      → Books requests (if b then c else d)
  if-Books true c d v w = v
  if-Books false c d v w = w

  -- A change of a stream that leaves what it has in flight alone.
  pub set_stream-BooksAt :
      (sent i : ℕ) (s : Stream) (c : Client)
      → s.inflight ≡ (stream_at c i).inflight
      → Fits c.max_inflight_per_stream s
      → BooksAt requests sent c
      → BooksAt requests sent (set_stream i s c)
  set_stream-BooksAt sent i s c e h v =
      let size : in_flight s ≡ in_flight (stream_at c i) = ap length e in
      let flight =
        total-update_at in_flight no_stream i s c.streams refl (inl (omega (arith, size))) in
      let same : total in_flight (update_at i (λ old. s) c.streams) ≡ total in_flight c.streams =
        omega (arith, flight, size) in
      record {
        calls = omega (arith, v.calls, same);
        owed = λ k. omega (
          arith,
          v.owed k,
          total-update_same (waits k) no_stream i s c.streams (ap (waits_in k) e),
        );
        messages = omega (arith, v.messages, same);
        answers = v.answers;
        failures = v.failures;
        fits = All-update_at (Fits c.max_inflight_per_stream) i s c.streams v.fits h;
        streams_there = length-update_at i s c.streams ∙ v.streams_there;
      }

  -- The stream that is read satisfies the bound.
  pub stream_at-Fits :
      (sent i : ℕ) (c : Client)
      → BooksAt requests sent c
      → Fits c.max_inflight_per_stream (stream_at c i)
  stream_at-Fits sent i c v =
      All-get_or (Fits c.max_inflight_per_stream) no_stream i c.streams (omega arith) v.fits

  -- One message of a stream is completed, as a success or as lost.
  abbrev pub popped : Bool → ℕ → InflightMessage → List InflightMessage → Client → Client
  popped success i message rest c =
      record (set_stream i (record (stream_at c i) { inflight = rest }) c) {
        counters =
            if success
            then record c.counters {
              stream_messages_received = add64 c.counters.stream_messages_received 1;
            }
            else record c.counters {
              stream_inflight_lost = add64 c.counters.stream_inflight_lost 1;
            };
        completed = (message.completion_callback, success) ∷ c.completed;
      }

  pub popped-Books :
      (success : Bool) (i : ℕ) (message : InflightMessage) (rest : List InflightMessage)
      (c : Client)
      → in_flight (stream_at c i) ≡ suc (length rest)
      → ((k : ℕ)
          → waits k (stream_at c i) ≡ is_callback k message.completion_callback + waits_in k rest)
      → Books requests c
      → Books requests (popped success i message rest c)
  popped-Books success i message rest c e its v =
      let s = record (stream_at c i) { inflight = rest } in
      let flight =
        total-update_at in_flight no_stream i s c.streams refl (inl (omega (arith, e))) in
      let h : Fits c.max_inflight_per_stream s =
        omega (arith, e, stream_at-Fits c.counters.stream_messages_sent i c v) in
      let waiting : (k : ℕ)
          → total (waits k) (update_at i (λ old. s) c.streams)
              + is_callback k message.completion_callback
            ≡ total (waits k) c.streams =
        λ k. omega (
          arith,
          its k,
          total-update_at (waits k) no_stream i s c.streams refl (inl (omega (arith, its k))),
        ) in
      let kept = All-update_at (Fits c.max_inflight_per_stream) i s c.streams v.fits h in
      let there = length-update_at i s c.streams ∙ v.streams_there in
      elim success as (λ k. Books requests (popped k i message rest c)) [
        | true ↦ record {
          calls = omega (arith, v.calls, flight, e);
          owed = λ k. omega (arith, v.owed k, waiting k);
          messages = omega (arith, v.messages, flight, e);
          answers = omega (arith, v.answers);
          failures = v.failures;
          fits = kept;
          streams_there = there;
        }
        | false ↦ record {
          calls = omega (arith, v.calls, flight, e);
          owed = λ k. omega (arith, v.owed k, waiting k);
          messages = omega (arith, v.messages, flight, e);
          answers = omega (arith, v.answers);
          failures = v.failures;
          fits = kept;
          streams_there = there;
        }
      ]
