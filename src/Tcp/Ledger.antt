-- ===== src/Tcp/Ledger.antt =====
-- The books of a TcpBenchmarkClientImpl, its completion callbacks and its counters, as numbers
-- (engine/source/client/tcp_benchmark_client_impl.cc).

pub mod Closing
pub mod Opening
pub mod Sending
pub mod History
pub mod Lifecycle
use sortie.Prelude.Updates.{total-update_at, is_call, is_callback, total-update_same, total}
use sortie.Prelude.{
  update_at, get_or, zero, suc, ℕ, ◌+◌, ◌-◌, ◌*◌, ◌/◌, ◌%◌, ◌≤◌, ◌<◌, min, max, ◌≡◌, refl, sym, ap,
  ◌∙◌, ◌≢◌, ◌↔◌, ◌⊎◌, inl, inr, Bool, true, false, not, ◌&&◌, ◌||◌, Option, none, some, List, [],
  ◌∷◌, ◌++◌, map, arith, ltb, leb, ◌==◌, ==_iff, if◌then◌else◌, Bool-cases, Option-cases, one_if,
  length, take, drop, length-append, take-append, drop-append, All, bit_and, bit_or, bit_xor,
}
use sortie.Prelude.Words.{add64, u64_mod}
use sortie.Tcp.Slots.{
  is_open, is_some, maybe_exit_wait_loop, release, schedule_retry, complete_inflight,
  complete_queue, initial_attempt_done,
}
use sortie.Tcp.{slot_at, InflightMessage, closed, set_link, no_link, link_at, Client, Link}

abbrev pub in_flight : List Link → ℕ
in_flight [] = 0
in_flight (link ∷ links) = length link.inflight + in_flight links

-- How many of its messages wait with a callback.
abbrev pub waits_in : ℕ → List InflightMessage → ℕ
waits_in k queue = total (λ m. is_callback k m.completion_callback) queue

abbrev pub waits : ℕ → Link → ℕ
waits k link = waits_in k link.inflight

-- How many of the posted callbacks report a success.
abbrev pub successes : List (ℕ × Bool) → ℕ
successes [] = 0
successes (call ∷ calls) = one_if call.1 + successes calls

abbrev pub WithinWindow : ℕ → Link → Type 0
WithinWindow window link = length link.inflight ≤ window

-- `requests` are the callbacks that were handed over: each was called, is posted or waits for its
-- echo, as often as it was handed over. What
-- was sent came back, was lost, is in flight or was not to be echoed, as the 64-bit counters have
-- it. No link has more than `window` messages in flight.
pub record Books (requests : List ℕ) (window : ℕ) (completed posted : List (ℕ × Bool))
    (links : List Link) (messages_sent messages_received inflight_lost : ℕ) : Type 0 where
  pub calls : length completed + length posted + in_flight links ≡ length requests
  pub owed :
      (k : ℕ)
      → total (is_call k) completed + total (is_call k) posted + total (waits k) links
        ≡ total (is_callback k) requests
  pub messages :
      messages_sent
      ≡ (messages_received + inflight_lost + in_flight links + successes posted) % u64_mod
  pub windows : All (WithinWindow window) links

-- The books with a given number of messages sent.
abbrev pub LedgerAt : List ℕ → ℕ → Client → Type 0
LedgerAt requests messages_sent c =
    Books requests c.max_inflight_per_connection c.completed c.posted c.links messages_sent
      c.counters.tcp_messages_received c.counters.tcp_inflight_lost

abbrev pub Ledger : List ℕ → Client → Type 0
Ledger requests c = LedgerAt requests c.counters.tcp_messages_sent c

pub in_range : (i : ℕ) (ls : List Link) → is_open (get_or no_link i ls).state ≡ true → i < length ls
in_range i [] h = absurd (ground arith)
in_range zero (l ∷ ls) h = omega arith
in_range (suc i) (l ∷ ls) h = omega (arith, in_range i ls h)

-- Replacing a link changes what is in flight by what it has in flight.
pub in_flight-update_at :
    (i : ℕ) (l : Link) (ls : List Link)
    → (length l.inflight ≤ length (get_or no_link i ls).inflight) ⊎ (i < length ls)
    → in_flight (update_at i (λ old. l) ls) + length (get_or no_link i ls).inflight
      ≡ in_flight ls + length l.inflight
in_flight-update_at i l [] h = ground arith
in_flight-update_at zero l (x ∷ ls) h = omega arith
in_flight-update_at (suc i) l (x ∷ ls) (inl h) = omega (arith, in_flight-update_at i l ls (inl h))
in_flight-update_at (suc i) l (x ∷ ls) (inr h) =
    omega (arith, in_flight-update_at i l ls (inr (omega arith)))

pub All-update_at :
    (w i : ℕ) (l : Link) (ls : List Link)
    → All (WithinWindow w) ls
    → WithinWindow w l
    → All (WithinWindow w) (update_at i (λ old. l) ls)
All-update_at w i l [] v h = tt
All-update_at w zero l (x ∷ ls) v h = (h, v.1)
All-update_at w (suc i) l (x ∷ ls) v h = (v.0, All-update_at w i l ls v.1 h)

pub All-get_or :
    (w i : ℕ) (ls : List Link) → All (WithinWindow w) ls → WithinWindow w (get_or no_link i ls)
All-get_or w i [] v = omega arith
All-get_or w zero (x ∷ ls) v = v.0
All-get_or w (suc i) (x ∷ ls) v = All-get_or w i ls v.1

module _ (requests : List ℕ) where
  pub if-Ledger :
      (b : Bool) (c d : Client)
      → Ledger requests c
      → Ledger requests d
      → Ledger requests (if b then c else d)
  if-Ledger true c d v w = v
  if-Ledger false c d v w = w

  -- A change of a link that leaves what it has in flight alone.
  pub set_link-LedgerAt :
      (sent i : ℕ) (l : Link) (c : Client)
      → l.inflight ≡ (link_at c i).inflight
      → LedgerAt requests sent c
      → LedgerAt requests sent (set_link i l c)
  set_link-LedgerAt sent i l c e v =
      let same : length l.inflight ≡ length (link_at c i).inflight = ap length e in
      let flight = in_flight-update_at i l c.links (inl (omega arith)) in
      record {
        calls = omega (arith, v.calls, flight, same);
        owed = λ k.
            omega (
              arith,
              v.owed k,
              total-update_same (waits k) no_link i l c.links (ap (waits_in k) e),
            );
        messages = omega (arith, v.messages, flight, same);
        windows =
            All-update_at c.max_inflight_per_connection i l c.links v.windows
              (omega (arith, same, All-get_or c.max_inflight_per_connection i c.links v.windows));
      }

  pub set_link-Ledger :
      (i : ℕ) (l : Link) (c : Client)
      → l.inflight ≡ (link_at c i).inflight
      → Ledger requests c
      → Ledger requests (set_link i l c)
  set_link-Ledger i l c e v = set_link-LedgerAt c.counters.tcp_messages_sent i l c e v

  pub initial_attempt_done-Ledger :
      (i : ℕ) (c : Client) → Ledger requests c → Ledger requests (initial_attempt_done i c)
  unfolding initial_attempt_done
  initial_attempt_done-Ledger i c v = elim (Bool-cases (link_at c i).initial_pending) [
    | inl pending ↦
        rw (pending) (set_link-Ledger i (record (link_at c i) { initial_pending = false }) c refl v)
    | inr over ↦ rw (over) v
  ]

pub length-update_at :
    (i : ℕ) (l : Link) (ls : List Link) → length (update_at i (λ old. l) ls) ≡ length ls
length-update_at i l [] = refl
length-update_at zero l (x ∷ ls) = refl
length-update_at (suc i) l (x ∷ ls) = ap suc (length-update_at i l ls)

pub get_or-update_at :
    (i : ℕ) (l : Link) (ls : List Link)
    → i < length ls
    → get_or no_link i (update_at i (λ old. l) ls) ≡ l
get_or-update_at i l [] h = absurd (omega arith)
get_or-update_at zero l (x ∷ ls) h = refl
get_or-update_at (suc i) l (x ∷ ls) h = get_or-update_at i l ls (omega arith)

pub holds_messages :
    (i : ℕ) (ls : List Link) → 0 < length (get_or no_link i ls).inflight → i < length ls
holds_messages i [] h = absurd (omega arith)
holds_messages zero (x ∷ ls) h = omega arith
holds_messages (suc i) (x ∷ ls) h = omega (arith, holds_messages i ls h)

module _ (requests : List ℕ) where
  -- One message of a link is completed, as a success or as lost.
  abbrev pub popped : Bool → ℕ → InflightMessage → List InflightMessage → Client → Client
  popped success i message rest c =
      record (set_link i (record (link_at c i) { inflight = rest }) c) {
        counters =
            if success
            then record c.counters {
              tcp_messages_received = add64 c.counters.tcp_messages_received 1;
            }
            else record c.counters { tcp_inflight_lost = add64 c.counters.tcp_inflight_lost 1 };
        completed = (message.completion_callback, success) ∷ c.completed;
      }

  pub popped-Ledger :
      (success : Bool) (i : ℕ) (message : InflightMessage) (rest : List InflightMessage)
      (c : Client)
      → (link_at c i).inflight ≡ message ∷ rest
      → Ledger requests c
      → Ledger requests (popped success i message rest c)
  popped-Ledger success i message rest c e v =
      let size : length (link_at c i).inflight ≡ suc (length rest) = ap length e in
      let window = c.max_inflight_per_connection in
      let l = record (link_at c i) { inflight = rest } in
      let flight = in_flight-update_at i l c.links (inl (omega (arith, size))) in
      let fits =
        All-update_at window i l c.links v.windows
          (omega (arith, size, All-get_or window i c.links v.windows)) in
      let waiting : (k : ℕ)
          → total (waits k) (update_at i (λ old. l) c.links)
              + is_callback k message.completion_callback
            ≡ total (waits k) c.links =
        λ k. omega (
          arith,
          ap (waits_in k) e,
          total-update_at (waits k) no_link i l c.links refl
              (inl (omega (arith, ap (waits_in k) e))),
        ) in
      elim success as (λ k. Ledger requests (popped k i message rest c)) [
        | true ↦ record {
          calls = omega (arith, v.calls, flight, size);
          owed = λ k. omega (arith, v.owed k, waiting k);
          messages = omega (arith, v.messages, flight, size);
          windows = fits;
        }
        | false ↦ record {
          calls = omega (arith, v.calls, flight, size);
          owed = λ k. omega (arith, v.owed k, waiting k);
          messages = omega (arith, v.messages, flight, size);
          windows = fits;
        }
      ]

  complete_queue-Ledger :
      (i : ℕ) (q : List InflightMessage) (c : Client)
      → (link_at c i).inflight ≡ q
      → Ledger requests c
      → Ledger requests (complete_queue false i q c)
  unfolding complete_queue
  complete_queue-Ledger i [] c e v = v
  complete_queue-Ledger i (message ∷ rest) c e v =
      let some_left : 0 < length (link_at c i).inflight = rw e (omega arith) in
      let l = record (link_at c i) { inflight = rest } in
      complete_queue-Ledger i rest (popped false i message rest c)
        (ap (λ link. link.inflight)
          (get_or-update_at i l c.links (holds_messages i c.links some_left)))
        (popped-Ledger false i message rest c e v)

  pub complete_inflight-Ledger :
      (i : ℕ) (c : Client) → Ledger requests c → Ledger requests (complete_inflight false i c)
  unfolding complete_inflight
  complete_inflight-Ledger i c v = complete_queue-Ledger i (link_at c i).inflight c refl v

  pub schedule_retry-Ledger :
      (now at : ℕ) (c : Client) → Ledger requests c → Ledger requests (schedule_retry now at c)
  unfolding schedule_retry
  schedule_retry-Ledger now at c v =
      elim (Bool-cases (c.finished || is_some (slot_at c at).retry_timer)) [
        | inl skip ↦ rw (skip) v
        | inr go ↦ rw (go) v
      ]

  pub release-Ledger : (i : ℕ) (c : Client) → Ledger requests c → Ledger requests (release i c).0
  unfolding release
  release-Ledger i c v = ground arith

  pub maybe_exit_wait_loop-Ledger :
      (c : Client) → Ledger requests c → Ledger requests (maybe_exit_wait_loop c)
  unfolding maybe_exit_wait_loop
  maybe_exit_wait_loop-Ledger c v = ground arith
