-- ===== src/RequestSource/Delivery.antt =====
-- The client of a remote request source over whole sequences of calls
-- (RequestStreamGrpcClientImpl).
use mathlib.Core.List.{append_assoc, append-nil}
use sortie.Prelude.Words.{u32_mod}
use sortie.RequestSource.{new_client, try_send_request, Response, start, Client}
use sortie.Prelude.{
  ℕ, ◌+◌, ◌*◌, ◌<◌, ◌≡◌, refl, sym, ap, ◌∙◌, ◌⊎◌, inl, inr, Bool, true, false, List, [], ◌++◌,
  arith, Bool-cases, length, length-append,
}
use sortie.RequestSource.Buffer.{
  happen-Buffered, happen-Moves, start-Buffered, Moves, Happens, asked_for, Buffered, done, next,
  arrived, taken, happen,
}

Happens-Buffered :
    (n : ℕ) {c d : Client} {ins outs : List Response}
    → 0 < n
    → n < u32_mod
    → Buffered n c
    → Happens c ins outs d
    → Buffered n d × Moves c ins outs d
Happens-Buffered n {c = c} some_there small b done =
    (b, record { in_order = append-nil c.messages; adds_up = omega arith })
Happens-Buffered n {c = c} some_there small b
      (next {d = d} {ins = ins} {outs = outs} e expected rest) =
    let m = happen-Moves n e c small expected b in
    let r =
      Happens-Buffered n some_there small (happen-Buffered n e c some_there small expected b)
        rest in
    (
      r.0,
      record {
        in_order =
            sym (append_assoc c.messages (arrived e) ins)
            ∙ ap (λ l. l ++ ins) m.in_order
            ∙ append_assoc (taken e c) (happen e c).messages ins
            ∙ ap (λ l. taken e c ++ l) r.1.in_order
            ∙ sym (append_assoc (taken e c) outs d.messages);
        adds_up = omega (arith, m.adds_up, r.1.adds_up, length-append (arrived e) ins);
      },
    )

start-fresh :
    (n : ℕ) (opened : Bool)
    → let c = start opened (new_client n) in (c.messages ≡ []) × (asked_for c ≡ c.in_flight_headers)
unfolding start try_send_request
start-fresh n false = (refl, refl)
start-fresh n true = (refl, omega arith)

-- A started client, whatever happens to it: the messages that requests are made of are the
-- responses of the service in their order, and the buffer has those not yet taken. The buffer and
-- the responses on their way are fewer than twice the buffer's length. Unless the stream is
-- closed, there are some in the buffer or on their way, so that the source never runs dry for
-- good. The responses that came and those on their way are as many as were asked for. The length
-- is not 0 and below 2^32, and the service is taken to send no more than it was asked for.
pub Happens-Delivers :
    (n : ℕ) (opened : Bool) (d : Client) (ins outs : List Response)
    → 0 < n
    → n < u32_mod
    → Happens (start opened (new_client n)) ins outs d
    → (ins ≡ outs ++ d.messages)
      × (length d.messages + d.in_flight_headers < 2 * n)
      × ((d.has_stream ≡ false) ⊎ (0 < length d.messages + d.in_flight_headers))
      × (length ins + d.in_flight_headers ≡ asked_for d)
Happens-Delivers n opened d ins outs some_there small life =
    let r = Happens-Buffered n some_there small (start-Buffered n opened some_there small) life in
    let fresh = start-fresh n opened in
    (
      sym (ap (λ l. l ++ ins) fresh.0) ∙ r.1.in_order,
      r.0.at_most,
      elim (Bool-cases d.has_stream) [
        | inl open_still ↦ inr (r.0.never_starved open_still)
        | inr shut ↦ inl shut
      ],
      omega (arith, r.1.adds_up, fresh.1),
    )
