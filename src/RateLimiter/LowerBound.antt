-- ===== src/RateLimiter/LowerBound.antt =====
-- The contract of timeUntilNextRelease() in engine/include/nighthawk/common/rate_limiter.h, carried
-- through the wrappers of engine/source/common/rate_limiter_impl.cc.
use sortie.Prelude.{
  refl, [], inr, inl, ◌∷◌, ◌-◌, suc, List, Option-cases, false, ◌+◌, ◌≤◌, some, ◌≡◌, ◌<◌, arith, ℕ,
  Bool,
}
use sortie.RateLimiter.{Now, Limiter, IsLowerBound}
use sortie.RateLimiter.Bursting
use sortie.RateLimiter.Scheduled
use sortie.RateLimiter.Filtering
use sortie.RateLimiter.Delegating
use sortie.RateLimiter.Bursting.{Bursting, drain_one, accumulate}
use sortie.RateLimiter.Bursting.Invariant.{Returns}
use sortie.RateLimiter.Scheduled.{Scheduled}
use sortie.RateLimiter.Filtering.{Filtering}
use sortie.RateLimiter.Delegating.{queued_or_wrapped, Delegating, collect, release_due}

-- Until the wait is over, the front of the list is not due.
release_due_waits :
    {S G : Type 0} (now later : Now) (ts : List ℕ) (wrapped : ℕ) (s : Delegating S G)
    → now.monotonic ≤ later.monotonic
    → later.monotonic < now.monotonic + queued_or_wrapped now ts wrapped
    → (later.monotonic < now.monotonic + wrapped) × ((release_due later ts s).1 ≡ false)
unfolding queued_or_wrapped release_due
release_due_waits now later [] wrapped s h k = (k, refl)
release_due_waits now later (t ∷ ts) wrapped s h k = (omega arith, ground arith)

-- A loop whose first acquisition is refused ends there.
accumulate_refused :
    {S : Type 0} (l : Limiter S) (fuel : ℕ) (now : Now) (b : Bursting S)
    → (l.try_acquire_one now b.rate_limiter).1 ≡ false
    → Returns (λ r. r.1 ≡ false) (accumulate l (suc fuel) now b)
unfolding accumulate
accumulate_refused l fuel now b h = ground arith

module _ {S : Type 0} (l : Limiter S) where
  -- If the wrapped limiter's timeUntilNextRelease() is a lower bound, so is that of a scheduled
  -- start: until the wait that it announces is over, tryAcquireOne() refuses.
  scheduled_lower_bound :
      (s : Scheduled S) (now later : Now) (wait : ℕ)
      → IsLowerBound l s.rate_limiter
      → Scheduled.time_until_next_release l now s ≡ some wait
      → now.monotonic ≤ later.monotonic
      → later.monotonic < now.monotonic + wait
      → (Scheduled.try_acquire_one l later s).1 ≡ false
  unfolding Scheduled.try_acquire_one Scheduled.time_until_next_release
  scheduled_lower_bound s now later wait h e from before = ground (arith, h now later wait)

  -- If the wrapped limiter's timeUntilNextRelease() is a lower bound, so is that of a filter,
  -- whatever the filter: until the wait that it announces is over, tryAcquireOne() refuses.
  filtering_lower_bound :
      {F : Type 0} (filter : Now → Filtering S F → Filtering S F × Bool) (s : Filtering S F)
      (now later : Now) (wait : ℕ)
      → IsLowerBound l s.rate_limiter
      → Filtering.time_until_next_release l filter now s ≡ some wait
      → now.monotonic ≤ later.monotonic
      → later.monotonic < now.monotonic + wait
      → (Filtering.try_acquire_one l filter later s).1 ≡ false
  unfolding Filtering.try_acquire_one Filtering.time_until_next_release
  filtering_lower_bound filter s now later wait h e from before =
      rw (h now later wait e from before)

  -- If the wrapped limiter's timeUntilNextRelease() is a lower bound, so is that of a bursting
  -- limiter with bursts of at least one: until the wait that it announces is over, tryAcquireOne()
  -- returns and refuses.
  pub bursting_lower_bound :
      (b : Bursting S) (now later : Now) (wait : ℕ)
      → 0 < b.burst_size
      → IsLowerBound l b.rate_limiter
      → Bursting.time_until_next_release l now b ≡ some wait
      → now.monotonic ≤ later.monotonic
      → later.monotonic < now.monotonic + wait
      → Returns (λ r. r.1 ≡ false) (Bursting.try_acquire_one l later b)
  unfolding Bursting.try_acquire_one Bursting.time_until_next_release
  bursting_lower_bound b now later wait pos h e from before =
      let size : b.burst_size ≡ suc (b.burst_size - 1) = omega arith in
      ground (
        arith,
        h now later wait,
        accumulate_refused l (b.burst_size - 1) later
            (record b { previously_releasing = some b.releasing }),
      )

  -- If the wrapped limiter's timeUntilNextRelease() is a lower bound, so is that of a delegating
  -- limiter, whatever delays it adds: until the wait that it announces is over, tryAcquireOne()
  -- refuses.
  pub delegating_lower_bound :
      {G : Type 0} (generator : G → G × ℕ) (s : Delegating S G) (now later : Now) (wait : ℕ)
      → IsLowerBound l s.rate_limiter
      → Delegating.time_until_next_release l generator now s ≡ some wait
      → now.monotonic ≤ later.monotonic
      → later.monotonic < now.monotonic + wait
      → (Delegating.try_acquire_one l generator later s).1 ≡ false
  unfolding Delegating.try_acquire_one Delegating.time_until_next_release
  delegating_lower_bound generator s now later wait h e from before =
      elim (Option-cases (l.time_until_next_release now s.rate_limiter)) [
        | inl none_known ↦ ground arith
        | inr (wrapped, known) ↦ ground (
          arith,
          release_due_waits now later s.distributed_timings wrapped (collect l generator later s),
          h now later wrapped,
        )
      ]
