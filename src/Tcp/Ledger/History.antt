-- ===== src/Tcp/Ledger/History.antt =====
-- Histories of a TcpBenchmarkClientImpl, from its construction to terminate(), and the books at
-- their end (engine/source/client/tcp_benchmark_client_impl.cc).

-- What can happen to a prepared client.
use sortie.Tcp.Ledger.Opening.{
  on_write_blocked-messages_sent, on_write_blocked-LedgerAt, on_retry-Ledger, on_timer-Ledger,
}
use sortie.Tcp.Ledger.Sending.{try_start_request-Ledger, on_data-Ledger}
use sortie.Tcp.Ledger.Closing.{on_event-Ledger}
use sortie.Tcp.Messages.{try_start_request, on_data}
use sortie.Tcp.Ledger.{Ledger}
use sortie.Tcp.Connections.{on_write_blocked, on_retry, on_timer, on_event}
use sortie.Tcp.{Client, Network, ConnectionEvent}
use sortie.Prelude.{ℕ, ◌+◌, ◌≡◌, refl, ◌∙◌, Bool, true, false, List, [], ◌∷◌, arith, one_if}

pub data Step : Type 0 where
  raised : ℕ → ConnectionEvent → Step
  read : ℕ → List ℕ → Step
  link_fired : ℕ → Step
  retry_fired : ℕ → Step
  watermark : ℕ → Bool → Step
  requested : ℕ → Step
  measure : Bool → Step

abbrev pub step : Network → ℕ → Step → Client → Client
step net now (raised i event) c = on_event net now i event c
step net now (read i bytes) c = on_data net now i bytes c
step net now (link_fired i) c = on_timer net now i c
step net now (retry_fired at) c = on_retry net now at c
step net now (watermark i blocked) c = on_write_blocked i blocked c
step net now (requested callback) c = try_start_request net now callback c
step net now (measure latencies) c = record c { measure_latencies = latencies }

-- Steps with the times at which they happen.
abbrev pub run_steps : Network → List (ℕ × Step) → Client → Client
run_steps net [] c = c
run_steps net ((now, s) ∷ rest) c = run_steps net rest (step net now s c)

abbrev pub is_request : Step → Bool
is_request (requested callback) = true
is_request _ = false

abbrev pub count_requests : List (ℕ × Step) → ℕ
count_requests [] = 0
count_requests ((now, s) ∷ rest) = one_if (is_request s) + count_requests rest

-- The callbacks that are handed over, the last one first.
abbrev pub hand : Step → List ℕ → List ℕ
hand (raised i event) requests = requests
hand (read i bytes) requests = requests
hand (link_fired i) requests = requests
hand (retry_fired at) requests = requests
hand (watermark i blocked) requests = requests
hand (requested callback) requests = callback ∷ requests
hand (measure latencies) requests = requests

abbrev pub handed_over : List (ℕ × Step) → List ℕ → List ℕ
handed_over [] requests = requests
handed_over ((now, s) ∷ rest) requests = handed_over rest (hand s requests)

hand-none : (s : Step) (requests : List ℕ) → one_if (is_request s) ≡ 0 → hand s requests ≡ requests
hand-none (raised i event) requests quiet = refl
hand-none (read i bytes) requests quiet = refl
hand-none (link_fired i) requests quiet = refl
hand-none (retry_fired at) requests quiet = refl
hand-none (watermark i blocked) requests quiet = refl
hand-none (requested callback) requests quiet = absurd (omega (arith, quiet))
hand-none (measure latencies) requests quiet = refl

pub handed_over-none :
    (history : List (ℕ × Step)) (requests : List ℕ)
    → count_requests history ≡ 0
    → handed_over history requests ≡ requests
handed_over-none [] requests quiet = refl
handed_over-none ((now, s) ∷ rest) requests quiet =
    handed_over-none rest (hand s requests) (omega (arith, quiet))
    ∙ hand-none s requests (omega (arith, quiet))

module _ (net : Network) where
  step-Ledger :
      (requests : List ℕ) (now : ℕ) (s : Step) (c : Client)
      → Ledger requests c
      → Ledger (hand s requests) (step net now s c)
  step-Ledger requests now (raised i event) c v = on_event-Ledger requests net now i event c v
  step-Ledger requests now (read i bytes) c v = on_data-Ledger requests net now i bytes c v
  step-Ledger requests now (link_fired i) c v = on_timer-Ledger requests net now i c v
  step-Ledger requests now (retry_fired at) c v = on_retry-Ledger requests net now at c v
  step-Ledger requests now (watermark i blocked) c v =
      rw (on_write_blocked-messages_sent requests i blocked c)
        (on_write_blocked-LedgerAt requests c.counters.tcp_messages_sent i blocked c v)
  step-Ledger requests now (requested callback) c v =
      try_start_request-Ledger requests net now callback c v
  step-Ledger requests now (measure latencies) c v = v

  pub run_steps-Ledger :
      (requests : List ℕ) (history : List (ℕ × Step)) (c : Client)
      → Ledger requests c
      → Ledger (handed_over history requests) (run_steps net history c)
  run_steps-Ledger requests [] c v = v
  run_steps-Ledger requests ((now, s) ∷ rest) c v =
      run_steps-Ledger (hand s requests) rest (step net now s c) (step-Ledger requests now s c v)
