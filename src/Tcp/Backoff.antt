-- ===== src/Tcp/Backoff.antt =====
-- The backoff of a slot (engine/source/client/tcp_benchmark_client_impl.cc).

use sortie.Prelude.{
  ◌^◌, zero, suc, ℕ, ◌+◌, ◌*◌, ◌≤◌, min, ◌≡◌, refl, sym, ap, ◌∙◌, inl, inr, false, Option, none,
  some, List, [], ◌∷◌, arith, Bool-cases, length,
}
use native.Mathlib.Nat.{pow-succ', mul_assoc}
-- The retry timer has fired at `now`: as the timer's callback has it, before connectNext().
use sortie.Tcp.Slots.{back_off, starts_over}
use sortie.Tcp.{initial_backoff, backoff_starts_over_after, max_backoff, Slot}

abbrev pub retried : ℕ → Slot → Slot
retried now slot = record slot { retry_timer = none; last_retry = some now }

-- Retries at these times: each is scheduled at the first and runs at the second.
abbrev pub retries : List (ℕ × ℕ) → Slot → Slot
retries [] slot = slot
retries ((scheduled, ran) ∷ rest) slot = retries rest (retried ran (back_off scheduled slot))

-- Each is scheduled less than 2 s after the one before it ran.
abbrev pub Consecutive : Option ℕ → List (ℕ × ℕ) → Type 0
Consecutive last [] = Unit {0}
Consecutive last ((scheduled, ran) ∷ rest) =
    (starts_over scheduled last ≡ false) × Consecutive (some ran) rest

doubled : ℕ → ℕ → ℕ
doubled b zero = b
doubled b (suc k) = doubled (b * 2) k

doubled-pow : (b k : ℕ) → doubled b k ≡ b * 2 ^ k
unfolding doubled
doubled-pow b zero = omega arith
doubled-pow b (suc k) =
    doubled-pow (b * 2) k ∙ (mul_assoc b 2 (2 ^ k) ∙ ap (◌*◌ b) (sym (pow-succ' 2 k)))

-- To cap before doubling or only at the end is the same.
doubled_capped :
    (b k : ℕ) → min (doubled (min b max_backoff) k) max_backoff ≡ min (doubled b k) max_backoff
unfolding doubled
doubled_capped b zero = omega arith
doubled_capped b (suc k) =
    let capped : min (min b max_backoff * 2) max_backoff ≡ min (b * 2) max_backoff = omega arith in
    sym (doubled_capped (min b max_backoff * 2) k)
    ∙ (ap (λ a. min (doubled a k) max_backoff) capped ∙ doubled_capped (b * 2) k)

retries_double :
    (history : List (ℕ × ℕ)) (now : ℕ) (slot : Slot)
    → slot.backoff ≤ max_backoff
    → Consecutive slot.last_retry history
    → starts_over now (retries history slot).last_retry ≡ false
    → (back_off now (retries history slot)).retry_timer
      ≡ some (min (doubled slot.backoff (length history)) max_backoff)
unfolding back_off doubled
retries_double [] now slot h v again =
    let same : min slot.backoff max_backoff ≡ slot.backoff = omega arith in rw (again, same) refl
retries_double ((scheduled, ran) ∷ rest) now slot h v again =
    let next = retried ran (back_off scheduled slot) in
    let grows : next.backoff ≡ min (slot.backoff * 2) max_backoff = rw (v.0) refl in
    let small : next.backoff ≤ max_backoff = omega (arith, grows) in
    retries_double rest now next small v.1 again
    ∙ ap some (
        ap (λ b. min (doubled b (length rest)) max_backoff) grows
        ∙ doubled_capped (slot.backoff * 2) (length rest))

-- After some consecutive retries of a slot whose backoff is `b`, at most the cap, the next one
-- waits `b` doubled once for each, at most the cap of a second.
back_off_doubles :
    (history : List (ℕ × ℕ)) (now : ℕ) (slot : Slot)
    → slot.backoff ≤ max_backoff
    → Consecutive slot.last_retry history
    → starts_over now (retries history slot).last_retry ≡ false
    → (back_off now (retries history slot)).retry_timer
      ≡ some (min (slot.backoff * 2 ^ length history) max_backoff)
back_off_doubles history now slot h v again =
    retries_double history now slot h v again
    ∙ ap (λ b. some (min b max_backoff)) (doubled-pow slot.backoff (length history))

-- A slot whose last retry ran 2 s ago or earlier starts over: it waits 10 ms, and 20 ms the next
-- time.
pub back_off_starts_over :
    (now last : ℕ) (slot : Slot)
    → slot.last_retry ≡ some last
    → last + backoff_starts_over_after ≤ now
    → ((back_off now slot).retry_timer ≡ some initial_backoff)
      × ((back_off now slot).backoff ≡ 2 * initial_backoff)
unfolding back_off
back_off_starts_over now last slot e h = (ground (arith, e), ground (arith, e))

-- A slot whose backoff is between 10 ms and a second keeps it so when a retry is scheduled, and the
-- wait that it arms is between these too.
pub back_off_bounds :
    (now : ℕ) (slot : Slot)
    → initial_backoff ≤ slot.backoff
    → slot.backoff ≤ max_backoff
    → (initial_backoff ≤ (back_off now slot).backoff)
      × ((back_off now slot).backoff ≤ max_backoff)
      × ((wait : ℕ) × ((back_off now slot).retry_timer ≡ some wait)
          × (initial_backoff ≤ wait)
          × (wait ≤ max_backoff))
unfolding back_off
back_off_bounds now slot lo hi = elim (Bool-cases (starts_over now slot.last_retry)) [
  | inl over ↦
      rw (over) (omega arith, omega arith, (initial_backoff, refl, omega arith, omega arith))
  | inr again ↦ rw (again) (omega arith, omega arith, (slot.backoff, refl, lo, hi))
]
