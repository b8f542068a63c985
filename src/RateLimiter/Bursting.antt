-- ===== src/RateLimiter/Bursting.antt =====
-- BurstingRateLimiter (engine/source/common/rate_limiter_impl.{h,cc}): collects acquisitions of
-- the wrapped limiter until a burst is complete, then hands the burst out.
pub mod Invariant
pub mod Conservation
use sortie.Prelude.{
  ℕ, zero, suc, ◌%◌, ◌<◌, ◌≡◌, Bool, true, false, ◌&&◌, Option, none, some, ltb, ◌==◌,
  if◌then◌else◌,
}
use sortie.Prelude.Words.{add64, sub64}
use sortie.RateLimiter.{Now, Outcome, done, aborts, Limiter}

pub record Bursting (S : Type 0) : Type 0 where
  pub rate_limiter : S
  pub burst_size : ℕ
  pub accumulated : ℕ
  pub releasing : Bool
  pub previously_releasing : Option Bool

unfoldable pub bursting : {S : Type 0} → S → ℕ → Outcome (Bursting S)
bursting s burst_size =
    if ltb 0 burst_size
    then done (record {
      rate_limiter = s;
      burst_size = burst_size;
      accumulated = 0;
      releasing = false;
      previously_releasing = none;
    })
    else aborts

-- The sanity check `previously_releasing_ == true`.
abbrev pub was_releasing : Option Bool → Bool
was_releasing none = false
was_releasing (some r) = r

-- The branch of tryAcquireOne() that is taken while releasing.
unfoldable pub drain_one : {S : Type 0} → Bursting S → Bursting S × Bool
drain_one b =
    let left = sub64 b.accumulated 1 in
    (
      record b {
        accumulated = left;
        releasing = ltb 0 left;
        previously_releasing = some b.releasing;
      },
      true,
    )

unfoldable pub release_one : {S : Type 0} → Bursting S → Outcome (Bursting S)
release_one b =
    if ltb b.accumulated b.burst_size && was_releasing b.previously_releasing
    then done (record b {
      accumulated = add64 b.accumulated 1;
      releasing = true;
      previously_releasing = none;
    })
    else aborts

module _ {S : Type 0} (l : Limiter S) where
  -- The while loop over the wrapped limiter; `none` means that the fuel ran out.
  unfoldable pub accumulate : ℕ → Now → Bursting S → Option (Bursting S × Bool)
  unfolding drain_one
  accumulate zero now b = none
  accumulate (suc fuel) now b =
      let (s, acquired) = l.try_acquire_one now b.rate_limiter in
      elim acquired [
        | false ↦ some (record b { rate_limiter = s; previously_releasing = none }, false)
        | true ↦
            let total = add64 b.accumulated 1 in
            elim (total % b.burst_size == 0) [
              | true ↦
                  some (
                    drain_one
                      (record b { rate_limiter = s; accumulated = total; releasing = true }))
              | false ↦ accumulate fuel now (record b { rate_limiter = s; accumulated = total })
            ]
      ]

  -- Out of fuel the result is `none`; Bursting/Invariant proves that it is not met.
  unfoldable pub try_acquire_one : Now → Bursting S → Option (Bursting S × Bool)
  unfolding drain_one accumulate
  try_acquire_one now b =
      if b.releasing
      then some (drain_one b)
      else accumulate b.burst_size now (record b { previously_releasing = some b.releasing })

  unfoldable pub time_until_next_release : Now → Bursting S → Option ℕ
  time_until_next_release now b =
      if b.releasing then some 0 else l.time_until_next_release now b.rate_limiter
