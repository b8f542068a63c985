-- ===== src/WebSocketStream/Ledger/Completing.antt =====
-- The books when a stream closes
-- (engine/source/client/websocket_stream_client_impl.cc).
use sortie.Prelude.Words.{add64}
use sortie.Prelude.Updates.{get_or-update_at, counted_in_range, get_or-amend, amend-commutes}
use sortie.WebSocketStream.Streams.{
  is_closed, open_streams, shut, close_stream, maybe_exit_wait_loop, complete_inflight,
  complete_queue,
}
use sortie.Prelude.{
  suc, ℕ, ◌≡◌, refl, ap, ◌∙◌, true, false, List, [], ◌∷◌, arith, ◌==◌, if◌then◌else◌, length,
}
use sortie.WebSocketStream.{
  awaits_closes, awaits_opens, awaits_nothing, stream_closed, InflightMessage, Stream, Client,
  no_stream, stream_at,
}
use sortie.WebSocketStream.Ledger.{
  waits_in, popped-Books, popped, if-Books, set_stream-BooksAt, in_flight, Books,
}

-- What completeInflight() does to a stream, and what is done to it in front of that.
abbrev with_inflight : List InflightMessage → Stream → Stream
with_inflight rest s = record s { inflight = rest }

abbrev shut_stream : Stream → Stream
shut_stream s = record s { state = stream_closed; encoder = false }

-- Closing a stream and completing its messages can change places.
complete_queue-shut :
    (i : ℕ) (q : List InflightMessage) (c : Client)
    → complete_queue false i q (shut i c) ≡ shut i (complete_queue false i q c)
unfolding complete_queue
complete_queue-shut i [] c = refl
complete_queue-shut i (message ∷ rest) c =
    let swapped =
      amend-commutes no_stream (with_inflight rest) shut_stream i c.streams (λ s. refl) in
    ap
      (λ ss. complete_queue false i rest (record c {
        streams = ss;
        counters = record c.counters {
          stream_inflight_lost = add64 c.counters.stream_inflight_lost 1;
        };
        completed = (message.completion_callback, false) ∷ c.completed;
      }))
      swapped
    ∙ complete_queue-shut i rest (popped [] false i message rest c)

pub complete_inflight-shut :
    (i : ℕ) (c : Client)
    → complete_inflight false i (shut i c) ≡ shut i (complete_inflight false i c)
unfolding complete_inflight
complete_inflight-shut i c =
    ap (λ q. complete_queue false i q (shut i c))
      (get_or-amend no_stream (λ s. s.inflight) shut_stream i c.streams (λ s. refl))
    ∙ complete_queue-shut i (stream_at c i).inflight c

module _ (requests : List ℕ) where
  complete_queue-Books :
      (i : ℕ) (q : List InflightMessage) (c : Client)
      → (stream_at c i).inflight ≡ q
      → Books requests c
      → Books requests (complete_queue false i q c)
        × (in_flight (stream_at (complete_queue false i q c) i) ≡ 0)
  unfolding complete_queue
  complete_queue-Books i [] c e v = (v, ap length e)
  complete_queue-Books i (message ∷ rest) c e v =
      let size : in_flight (stream_at c i) ≡ suc (length rest) = ap length e in
      let there = counted_in_range in_flight no_stream i c.streams refl (omega (arith, size)) in
      complete_queue-Books i rest (popped requests false i message rest c)
        (ap (λ s. s.inflight)
          (get_or-update_at no_stream i (with_inflight rest (stream_at c i)) c.streams there))
        (popped-Books requests false i message rest c size (λ k. ap (waits_in k) e) v)

  pub complete_inflight-Books :
      (i : ℕ) (c : Client)
      → Books requests c
      → Books requests (complete_inflight false i c)
        × (in_flight (stream_at (complete_inflight false i c) i) ≡ 0)
  unfolding complete_inflight
  complete_inflight-Books i c v = complete_queue-Books i (stream_at c i).inflight c refl v

  pub maybe_exit_wait_loop-Books :
      (c : Client) → Books requests c → Books requests (maybe_exit_wait_loop c)
  unfolding maybe_exit_wait_loop
  maybe_exit_wait_loop-Books c v =
      elim c.waiting_for
        as (λ w. Books requests (elim w [
          | awaits_nothing ↦ c
          | awaits_opens ↦ if c.pending_opens == 0 then record c { exits = true } else c
          | awaits_closes ↦ if open_streams c == 0 then record c { exits = true } else c
        ])) [
          | awaits_nothing ↦ v
          | awaits_opens ↦
              if-Books requests (c.pending_opens == 0) (record c { exits = true }) c v v
          | awaits_closes ↦
              if-Books requests (open_streams c == 0) (record c { exits = true }) c v v
        ]

  -- Closed, with what it had in flight lost.
  pub completed-Books :
      (i : ℕ) (c : Client)
      → Books requests c
      → Books requests (complete_inflight false i (shut i c))
  completed-Books i c v =
      let after = complete_inflight false i c in
      let (kept, none_left) = complete_inflight-Books i c v in
      rw (complete_inflight-shut i c) (
        set_stream-BooksAt requests after.counters.stream_messages_sent i
          (shut_stream (stream_at after i)) after refl (omega (arith, none_left)) kept)

  pub close_stream-Books :
      (i : ℕ) (c : Client) → Books requests c → Books requests (close_stream i c)
  unfolding close_stream
  close_stream-Books i c v =
      let closed = complete_inflight false i (shut i c) in
      if-Books requests (is_closed (stream_at c i).state) c (maybe_exit_wait_loop closed) v
        (maybe_exit_wait_loop-Books closed (completed-Books i c v))
