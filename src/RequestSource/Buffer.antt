-- ===== src/RequestSource/Buffer.antt =====
-- What each event does to the buffer of the client of a remote request source
-- (RequestStreamGrpcClientImpl).

-- What happens to the client after start(): the service sends a response, the stream is closed,
-- or the program asks for a request. A service sends at most as many responses as it was asked
-- for.
use mathlib.Core.List.{append-nil}
use sortie.Prelude.Words.{u32_mod}
use sortie.RequestSource.{
  refill, new_client, on_remote_close, try_send_request, on_receive_message, start, Client, dequeue,
  Response,
}
use sortie.Prelude.{
  ℕ, ◌+◌, ◌*◌, ◌≤◌, ◌<◌, ◌≡◌, refl, sym, ap, inl, inr, Bool, true, false, ◌&&◌, none, some, List,
  [], ◌∷◌, ◌++◌, arith, ltb, ◌==◌, Bool-cases, length, length-append,
}

pub data Event : Type 0 where
  received : Response → Event
  closed : Event
  wanted : Event

abbrev pub happen : Event → Client → Client
unfolding dequeue
happen (received message) c = on_receive_message message c
happen closed c = on_remote_close c
happen wanted c = (dequeue c).1

-- The messages that requests are made of.
abbrev pub taken : Event → Client → List Response
taken (received message) c = []
taken closed c = []
taken wanted c = elim (dequeue c).0 [ none ↦ [] | some message ↦ message ∷ [] ]

abbrev pub arrived : Event → List Response
arrived (received message) = message ∷ []
arrived closed = []
arrived wanted = []

-- Responses come on an open stream, while some are on their way.
abbrev pub IsExpected : Event → Client → Type 0
IsExpected (received message) c = (c.has_stream ≡ true) × (0 < c.in_flight_headers)
IsExpected closed c = c.has_stream ≡ true
IsExpected wanted c = Unit

-- A life of the client from `c`: the responses that arrive, the messages taken, the client after.
pub data Happens : (c : Client) (ins outs : List Response) (d : Client) → Type 0 where
  done : {c : Client} → Happens c [] [] c
  next :
      {c d : Client} {ins outs : List Response}
      → (e : Event) → IsExpected e c
      → Happens (happen e c) ins outs d
      → Happens c (arrived e ++ ins) (taken e c ++ outs) d

-- The invariant for a buffer of `n`.
pub record Buffered (n : ℕ) (c : Client) : Type 0 where
  pub asks : c.header_buffer_length ≡ n
  pub on_the_way : c.in_flight_headers ≤ n
  pub at_most : length c.messages + c.in_flight_headers < 2 * n
  pub never_starved : c.has_stream ≡ true → 0 < length c.messages + c.in_flight_headers

pub start-Buffered :
    (n : ℕ) (opened : Bool) → 0 < n → n < u32_mod → Buffered n (start opened (new_client n))
unfolding start try_send_request
start-Buffered n false some_there small = record {
  asks = refl;
  on_the_way = omega arith;
  at_most = omega arith;
  never_starved = λ h. ground arith;
}
start-Buffered n true some_there small = record {
  asks = refl;
  on_the_way = omega arith;
  at_most = omega arith;
  never_starved = λ h. omega arith;
}

refill-Buffered :
    (n : ℕ) (c : Client)
    → 0 < n
    → c.header_buffer_length ≡ n
    → c.in_flight_headers ≤ n
    → length c.messages + c.in_flight_headers < 2 * n
    → Buffered n (refill c)
unfolding refill try_send_request
refill-Buffered n c some_there e few fits =
    elim (Bool-cases (c.in_flight_headers == 0 && ltb (length c.messages) c.header_buffer_length)) [
      | inr kept ↦
          rw (kept) (record {
            asks = e;
            on_the_way = few;
            at_most = fits;
            never_starved = λ _. ground arith;
          })
      | inl low ↦ rw (low) (elim (Bool-cases c.has_stream) [
        | inl opened ↦ rw (opened) (record {
          asks = e;
          on_the_way = omega (arith, e);
          at_most = ground arith;
          never_starved = λ _. omega (arith, e, some_there);
        })
        | inr shut ↦ rw (shut) (record {
          asks = e;
          on_the_way = few;
          at_most = fits;
          never_starved = λ h. ground arith;
        })
      ])
    ]

pub happen-Buffered :
    (n : ℕ) (e : Event) (c : Client)
    → 0 < n
    → n < u32_mod
    → IsExpected e c
    → Buffered n c
    → Buffered n (happen e c)
unfolding on_receive_message on_remote_close dequeue
happen-Buffered n (received message) c some_there small expected b =
    let size = length-append c.messages (message ∷ []) in
    record {
      asks = b.asks;
      on_the_way = omega (arith, b.on_the_way, expected.1);
      at_most = omega (arith, b.at_most, b.on_the_way, expected.1, size);
      never_starved = λ _. omega (arith, size);
    }
happen-Buffered n closed c some_there small expected b = record {
  asks = b.asks;
  on_the_way = b.on_the_way;
  at_most = b.at_most;
  never_starved = λ h. ground arith;
}
happen-Buffered n wanted c some_there small expected b = go c.messages refl
  where
    go : (messages : List Response) → c.messages ≡ messages → Buffered n (dequeue c).1
    go [] e = rw (e, dequeue) b
    go (message ∷ rest) e =
        rw (e, dequeue)
          (refill-Buffered n (record c { messages = rest }) some_there b.asks b.on_the_way
            (omega (arith, b.at_most, ap length e)))

abbrev pub sum : List ℕ → ℕ
sum [] = 0
sum (n ∷ ns) = n + sum ns

sum-append : (ms ns : List ℕ) → sum (ms ++ ns) ≡ sum ms + sum ns
sum-append [] ns = omega arith
sum-append (m ∷ ms) ns = omega (arith, sum-append ms ns)

-- How many responses the client has asked for.
abbrev pub asked_for : Client → ℕ
asked_for c = sum c.asked

-- One event: the messages stay in their order, and no response is counted twice.
pub record Moves (c : Client) (ins outs : List Response) (d : Client) : Type 0 where
  pub in_order : c.messages ++ ins ≡ outs ++ d.messages
  pub adds_up : asked_for c + length ins + d.in_flight_headers ≡ c.in_flight_headers + asked_for d

refill-Moves : (c : Client) → Moves c [] [] (refill c)
unfolding refill try_send_request
refill-Moves c =
    elim (Bool-cases (c.in_flight_headers == 0 && ltb (length c.messages) c.header_buffer_length)) [
      | inr kept ↦ rw (kept) (record { in_order = append-nil c.messages; adds_up = omega arith })
      | inl low ↦ rw (low) (elim (Bool-cases c.has_stream) [
        | inl opened ↦
            let more = sum-append c.asked (c.header_buffer_length ∷ []) in
            rw (opened)
              (record { in_order = append-nil c.messages; adds_up = ground (arith, more) })
        | inr shut ↦ rw (shut) (record { in_order = append-nil c.messages; adds_up = omega arith })
      ])
    ]

pub happen-Moves :
    (n : ℕ) (e : Event) (c : Client)
    → n < u32_mod
    → IsExpected e c
    → Buffered n c
    → Moves c (arrived e) (taken e c) (happen e c)
unfolding on_receive_message on_remote_close dequeue
happen-Moves n (received message) c small expected b = record {
  in_order = refl;
  adds_up = omega (arith, b.on_the_way, expected.1);
}
happen-Moves n closed c small expected b = record {
  in_order = append-nil c.messages;
  adds_up = omega arith;
}
happen-Moves n wanted c small expected b = go c.messages refl
  where
    go :
        (messages : List Response)
        → c.messages ≡ messages
        → Moves c [] (taken wanted c) (dequeue c).1
    go [] e = rw (e, dequeue) (record { in_order = sym e; adds_up = omega arith })
    go (message ∷ rest) e =
        let m = refill-Moves (record c { messages = rest }) in
        rw (e, dequeue)
          (record { in_order = ap (λ l. message ∷ l) m.in_order; adds_up = m.adds_up })
