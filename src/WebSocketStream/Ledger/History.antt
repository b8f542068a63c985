-- ===== src/WebSocketStream/Ledger/History.antt =====
-- What happens to a WebSocketStreamBenchmarkClientImpl, as a step relation, and the books after
-- any number of steps (engine/source/client/websocket_stream_client_impl.cc).
use mathlib.Core.List.{append_assoc}
use mathlib.Core.Path.{subst}
use sortie.WebSocketStream.Ledger.Requests.{try_start_request-Books}
use sortie.WebSocketStream.Ledger.Sending.{on_response_data-Books}
use sortie.WebSocketStream.Messages.{try_start_request, on_response_data}
use sortie.WebSocketStream.Ledger.Opening.{
  on_write_blocked-BooksAt, on_write_blocked-messages_sent, on_stream_reset-Books,
  on_response_end-Books, on_response_headers-Books, opening_idle, on_stream_open_failure-Books,
  on_stream_ready-Books,
}
use sortie.Prelude.{◌∷◌, sym, ◌++◌, [], ℕ, ◌≡◌, Bool, true, List}
use sortie.Prelude.Hex.{Hex}
use sortie.WebSocketStream.{Network, Upgrade, Client, stream_at}
use sortie.WebSocketStream.Streams.{
  on_write_blocked, on_stream_reset, on_response_end, on_response_headers, on_stream_open_failure,
  on_stream_ready, is_opening, Response,
}
use sortie.WebSocketStream.Ledger.{Books}

-- The handlers of a stream's callbacks, and the calls of the worker; a step carries the
-- callbacks that are handed over with it. The pool reports a failure for a stream that it did not open.
pub data Step (net : Network) (lib : Upgrade) (hex : Hex) : List ℕ → Client → Client → Type 0 where
  pool_was_ready : (i : ℕ) (c : Client) → Step net lib hex [] c (on_stream_ready net i c)
  pool_failed :
      (i : ℕ) (c : Client)
      → is_opening (stream_at c i).state ≡ true
      → Step net lib hex [] c (on_stream_open_failure i c)
  headers_came :
      (i : ℕ) (r : Response) (end_stream : Bool) (c : Client)
      → Step net lib hex [] c (on_response_headers lib i r end_stream c)
  data_came :
      (now i : ℕ) (bytes : List ℕ) (end_stream : Bool) (c : Client)
      → Step net lib hex [] c (on_response_data net hex now i bytes end_stream c)
  trailers_came : (i : ℕ) (c : Client) → Step net lib hex [] c (on_response_end i c)
  reset_came : (i : ℕ) (c : Client) → Step net lib hex [] c (on_stream_reset i c)
  watermark_crossed :
      (i : ℕ) (blocked : Bool) (c : Client) → Step net lib hex [] c (on_write_blocked i blocked c)
  request_came :
      (now callback : ℕ) (c : Client)
      → Step net lib hex (callback ∷ []) c (try_start_request net hex now callback c)
  latencies_measured :
      (measure : Bool) (c : Client)
      → Step net lib hex [] c (record c { measure_latencies = measure })

-- Any number of steps, with the callbacks of all, the last one first.
pub data Run (net : Network) (lib : Upgrade) (hex : Hex) : List ℕ → Client → Client → Type 0 where
  no_step : (c : Client) → Run net lib hex [] c c
  one_more :
      {m n : List ℕ} {c d e : Client}
      → Run net lib hex m c d
      → Step net lib hex n d e
      → Run net lib hex (n ++ m) c e

pub counted-Books : (a b : List ℕ) (c : Client) → a ≡ b → Books a c → Books b c
counted-Books a b c e v = subst (λ l. Books l c) e v

module _ (net : Network) (lib : Upgrade) (hex : Hex) (requests : List ℕ) where
  Step-Books :
      {n : List ℕ} {c d : Client}
      → Step net lib hex n c d
      → Books requests c
      → Books (n ++ requests) d
  Step-Books (pool_was_ready i c) v = on_stream_ready-Books requests net i c v
  Step-Books (pool_failed i c opening) v =
      on_stream_open_failure-Books requests i c (opening_idle requests i c opening v) v
  Step-Books (headers_came i r end_stream c) v =
      on_response_headers-Books requests lib i r end_stream c v
  Step-Books (data_came now i bytes end_stream c) v =
      on_response_data-Books requests net hex now i bytes end_stream c v
  Step-Books (trailers_came i c) v = on_response_end-Books requests i c v
  Step-Books (reset_came i c) v = on_stream_reset-Books requests i c v
  Step-Books (watermark_crossed i blocked c) v =
      rw (on_write_blocked-messages_sent requests i blocked c)
        (on_write_blocked-BooksAt requests c.counters.stream_messages_sent i blocked c v)
  Step-Books (request_came now callback c) v =
      try_start_request-Books requests net hex now callback c v
  Step-Books (latencies_measured measure c) v = v

module _ (net : Network) (lib : Upgrade) (hex : Hex) where
  pub Run-Books :
      (requests : List ℕ) {n : List ℕ} {c d : Client}
      → Run net lib hex n c d
      → Books requests c
      → Books (n ++ requests) d
  Run-Books requests (no_step c) v = v
  Run-Books requests (one_more {m} {n} {c} {d} {e} before step) v =
      counted-Books (n ++ (m ++ requests)) ((n ++ m) ++ requests) e
        (sym (append_assoc n m requests))
        (Step-Books net lib hex (m ++ requests) step (Run-Books requests before v))
