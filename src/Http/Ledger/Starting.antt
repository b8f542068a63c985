-- ===== src/Http/Ledger/Starting.antt =====
-- The books when a request is accepted or turned away
-- (engine/source/client/benchmark_client_impl.cc).
use sortie.Http.Ledger.Ending.{touched-Books}
use sortie.Http.Ledger.Decoding.{decoder_pool_failure-Books}
use sortie.Http.Decoding.{is_empty, on_pool_ready}
use sortie.Prelude.Words.{add64, u32_mod, u64_mod}
use sortie.Prelude.{
  ℕ, ◌+◌, ◌%◌, ◌≤◌, ◌<◌, ◌≡◌, refl, ap, inl, inr, false, Option, none, some, List, [], ◌∷◌, ◌++◌,
  arith, if◌then◌else◌, Bool-cases, Option-cases, one_if, length, length-append,
}
use sortie.Prelude.Updates.{total, total-append, get_or_last}
use sortie.Http.{Decoder, Client, Surroundings, no_decoder, decoder_at}
use sortie.Http.Life.{
  pool_is_ready, pool_fails, Request, PoolEvent, Network, content_length, on_pool, start,
  start_next, is_backed_up, try_start_request,
}
use sortie.Http.Ledger.{ended_with, same-Books, outstanding, Books}

at_most_one : (decoders : List Decoder) → total outstanding decoders ≤ length decoders
at_most_one [] = omega arith
at_most_one (d ∷ decoders) = elim (Bool-cases d.deleted) [
  | inl over ↦ rw (over) (omega (arith, at_most_one decoders))
  | inr there ↦ rw (there) (omega (arith, at_most_one decoders))
]

pub on_pool_ready-Books :
    (requests now i : ℕ) (c : Client) → Books requests c → Books requests (on_pool_ready now i c)
unfolding on_pool_ready
on_pool_ready-Books requests now i c v =
    let d = decoder_at c i in
    let sent = if is_empty d.request_body then d.request_body_size else length d.request_body in
    touched-Books requests 0 i
      (record d { request_start = now; bytes_received = add64 d.bytes_received sent }) c refl
      (λ k. refl) v

on_pool-Books :
    (requests now : ℕ) (raised : Option PoolEvent) (i : ℕ) (c : Client)
    → outstanding (decoder_at c i) ≡ 1
    → Books requests c
    → Books requests (on_pool now raised i c)
unfolding on_pool
on_pool-Books requests now none i c live v = v
on_pool-Books requests now (some pool_is_ready) i c live v = on_pool_ready-Books requests now i c v
on_pool-Books requests now (some (pool_fails reason)) i c live v =
    decoder_pool_failure-Books requests i reason c live v

module _ (around : Surroundings) (net : Network) (requests : ℕ) where
  start-Books :
      (now callback : ℕ) (request : Request) (c : Client)
      → requests + 1 < u64_mod
      → Books requests c
      → Books (requests + 1) (start around net now callback request c)
  unfolding start
  start-Books now callback request c few v =
      let i = length c.decoders in
      let decoder : Decoder = record no_decoder {
        caller_completion_callback = callback;
        request_body = request.body;
        request_body_size = content_length around request.content_length % u32_mod;
        measures = c.measure_latencies;
        connect_start = now;
        deleted = false;
      } in
      let started : Client = record c {
        decoders = c.decoders ++ decoder ∷ [];
        requests_initiated = add64 c.requests_initiated 1;
        requests_outstanding = add64 c.requests_outstanding 1;
      } in
      let longer : length (c.decoders ++ decoder ∷ []) ≡ length c.decoders + 1 =
        length-append c.decoders (decoder ∷ []) in
      let more : total outstanding (c.decoders ++ decoder ∷ []) ≡ total outstanding c.decoders + 1 =
        total-append outstanding c.decoders decoder in
      let bound = at_most_one c.decoders in
      on_pool-Books (requests + 1) now (net.pool_raises started i) i started
        (ap outstanding (get_or_last outstanding no_decoder c.decoders decoder))
        (record {
          there = omega (arith, longer, v.there);
          calls = omega (arith, more, v.calls);
          owed = λ k. omega (arith, v.owed k, total-append (ended_with k) c.decoders decoder);
          waiting = omega (arith, more, v.waiting, bound, v.there, few);
          initiated_all = omega (arith, v.initiated_all);
          ends = omega (arith, v.ends, more);
          scored = v.scored;
          tracked = v.tracked;
          phased = v.phased;
          reasoned = v.reasoned;
          sided = v.sided;
          none_lost = v.none_lost;
          word = v.word;
        })

  -- What it returns is whether it accepted a request.
  pub try_start_request-Books :
      (now callback : ℕ) (c : Client)
      → requests + 1 < u64_mod
      → Books requests c
      → let (d, accepted) = try_start_request around net now callback c in
        Books (requests + one_if accepted) d
  unfolding try_start_request start_next
  try_start_request-Books now callback c few v = elim (Bool-cases (net.has_pool c)) [
    | inr gone ↦ rw (gone) (same-Books requests c v)
    | inl there ↦ elim (Bool-cases (is_backed_up c)) [
      | inl full ↦ rw (there, full) (same-Books requests c v)
      | inr room ↦ elim (Option-cases (net.next_request c)) [
        | inl nothing ↦ rw (there, room, nothing) (same-Books requests c v)
        | inr (request, yielded) ↦
            rw (there, room, yielded) (start-Books now callback request c few v)
      ]
    ]
  ]
