-- ===== src/RateLimiter/Scheduled.antt =====
-- ScheduledStartingRateLimiter (engine/source/common/rate_limiter_impl.{h,cc}): forwards to the
-- wrapped limiter once its starting time has come.
use native.Mathlib.Decide.{dec_lt}
use sortie.Prelude.{
  ℕ, ◌-◌, ◌≤◌, ◌<◌, ◌≡◌, Bool, true, false, Option, some, arith, ltb, if◌then◌else◌, ◌⊎◌, inl, inr,
}
use sortie.RateLimiter.{Now, Outcome, throws, map_outcome, Limiter}

pub record Scheduled (S : Type 0) : Type 0 where
  pub rate_limiter : S
  pub scheduled_starting_time : ℕ
  pub acquisition_attempted : Bool

module _ {S : Type 0} (l : Limiter S) where
  -- With the flag that is set, the log line about a late start is left out.
  unfoldable pub try_acquire_one : Now → Scheduled S → Scheduled S × Bool
  try_acquire_one now s =
      if ltb now.monotonic s.scheduled_starting_time
      then (record s { acquisition_attempted = true }, false)
      else let (inner, acquired) = l.try_acquire_one now s.rate_limiter in
        (record s { rate_limiter = inner; acquisition_attempted = true }, acquired)

  unfoldable pub release_one : Now → Scheduled S → Outcome (Scheduled S)
  release_one now s =
      if ltb now.monotonic s.scheduled_starting_time
      then throws
      else map_outcome (λ inner. record s { rate_limiter = inner })
          (l.release_one now s.rate_limiter)

  -- duration_cast from the clock's nanoseconds loses nothing.
  unfoldable pub time_until_next_release : Now → Scheduled S → Option ℕ
  time_until_next_release now s =
      if ltb now.monotonic s.scheduled_starting_time
      then some (s.scheduled_starting_time - now.monotonic)
      else l.time_until_next_release now s.rate_limiter

  -- tryAcquireOne() and releaseOne() with timeUntilNextRelease(), and the calls that
  -- ForwardingRateLimiterImpl passes on.
  abbrev pub limiter : Limiter (Scheduled S)
  limiter = record {
    try_acquire_one = try_acquire_one;
    release_one = release_one;
    elapsed = λ now s.
        let (inner, e) = l.elapsed now s.rate_limiter in (record s { rate_limiter = inner }, e);
    first_acquisition_time = λ s. l.first_acquisition_time s.rate_limiter;
    time_until_next_release = time_until_next_release;
  }

  -- Before its starting time the limiter lets nothing through, leaves the wrapped limiter alone
  -- and refuses a release; from then on each call gives what the wrapped limiter gives.
  scheduled_gate :
      (now : Now) (s : Scheduled S)
      → ((now.monotonic < s.scheduled_starting_time)
          × ((try_acquire_one now s).1 ≡ false)
          × ((try_acquire_one now s).0.rate_limiter ≡ s.rate_limiter)
          × (release_one now s ≡ throws))
        ⊎ ((s.scheduled_starting_time ≤ now.monotonic)
            × ((try_acquire_one now s).1 ≡ (l.try_acquire_one now s.rate_limiter).1)
            × ((try_acquire_one now s).0.rate_limiter ≡ (l.try_acquire_one now s.rate_limiter).0)
            × (time_until_next_release now s ≡ l.time_until_next_release now s.rate_limiter))
  unfolding try_acquire_one release_one time_until_next_release
  scheduled_gate now s = elim (dec_lt now.monotonic s.scheduled_starting_time) [
    | yes p ↦ inl (p, ground arith, ground arith, ground arith)
    | no p ↦ inr (omega arith, ground arith, ground arith, ground arith)
  ]
