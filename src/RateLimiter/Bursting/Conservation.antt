-- ===== src/RateLimiter/Bursting/Conservation.antt =====
-- The acquisitions of a BurstingRateLimiter and of the limiter that it wraps
-- (engine/source/common/rate_limiter_impl.cc).
use sortie.Prelude.{one_if, ℕ, zero, suc, ◌+◌, ◌≤◌, ◌≡◌, Bool, false, some, arith}
use sortie.Prelude.Words.{add64}
use sortie.RateLimiter.{Now, done, Limiter}
use sortie.RateLimiter.Bursting.{Bursting, drain_one, accumulate, try_acquire_one}
use sortie.RateLimiter.Bursting.Invariant.{Inv, Returns, multiple_of_size}

-- The limiter `l`, with a count of its successes in front of its state.
abbrev pub counting : {S : Type 0} → Limiter S → Limiter (ℕ × S)
counting l = record {
  try_acquire_one = λ now s.
      (let (s', acquired) = l.try_acquire_one now s.1 in ((s.0 + one_if acquired, s'), acquired));
  release_one = λ now s. done s;
  elapsed = λ now s. (s, (l.elapsed now s.1).1);
  first_acquisition_time = λ s. l.first_acquisition_time s.1;
  time_until_next_release = λ now s. l.time_until_next_release now s.1;
}

abbrev pub Conserves : {S : Type 0} → Bursting (ℕ × S) → Bursting (ℕ × S) × Bool → Type 0
Conserves b r = r.0.accumulated + one_if r.1 + b.rate_limiter.0 ≡ b.accumulated + r.0.rate_limiter.0

module _ {S : Type 0} (l : Limiter S) where
  accumulate-Conserves :
      (fuel : ℕ) (now : Now) (b : Bursting (ℕ × S))
      → Inv b
      → b.releasing ≡ false
      → b.burst_size ≤ b.accumulated + fuel
      → Returns (Conserves b) (accumulate (counting l) fuel now b)
  unfolding accumulate drain_one
  accumulate-Conserves zero now b v r h = absurd (omega (arith, v.collecting r))
  accumulate-Conserves (suc fuel) now b v r h = ground (
    arith,
    multiple_of_size (b.accumulated + 1) b.burst_size,
    accumulate-Conserves fuel now (record b {
      rate_limiter = ((counting l).try_acquire_one now b.rate_limiter).0;
      accumulated = add64 b.accumulated 1;
    }),
  )

  -- From a state that satisfies the invariant, a call of tryAcquireOne() neither loses an
  -- acquisition of the wrapped limiter nor makes one up: what was accumulated and what the wrapped
  -- limiter granted is what is accumulated afterwards and what was let through.
  pub try_acquire_one-Conserves :
      (now : Now) (b : Bursting (ℕ × S))
      → Inv b
      → Returns (Conserves b) (try_acquire_one (counting l) now b)
  unfolding try_acquire_one drain_one
  try_acquire_one-Conserves now b v = ground (
    arith,
    accumulate-Conserves b.burst_size now (record b { previously_releasing = some b.releasing }),
  )
