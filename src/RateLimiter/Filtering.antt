-- ===== src/RateLimiter/Filtering.antt =====
-- FilteringRateLimiterImpl and GraduallyOpeningRateLimiterFilter
-- (engine/source/common/rate_limiter_impl.{h,cc}): an acquisition of the wrapped limiter that a
-- filter may suppress. The arithmetic on doubles is the parameter `d`.
use sortie.Prelude.Double.{Ops}
use sortie.Prelude.{◌-◌, ℕ, Bool, true, false, Option, ltb, ◌==◌, ◌||◌, not, if◌then◌else◌}
use sortie.RateLimiter.{Now, Outcome, done, throws, map_outcome, Limiter}

pub record Filtering (S F : Type 0) : Type 0 where
  pub rate_limiter : S
  pub filter_state : F

-- The filter is a std::function with a state of its own; it may read the wrapped limiter.
module _ {S F : Type 0} (l : Limiter S) (filter : Now → Filtering S F → Filtering S F × Bool) where
  unfoldable pub try_acquire_one : Now → Filtering S F → Filtering S F × Bool
  try_acquire_one now s =
      let (inner, acquired) = l.try_acquire_one now s.rate_limiter in
      let s' : Filtering S F = record s { rate_limiter = inner } in
      if acquired then filter now s' else (s', false)

  unfoldable pub release_one : Now → Filtering S F → Outcome (Filtering S F)
  release_one now s =
      map_outcome (λ inner. record s { rate_limiter = inner }) (l.release_one now s.rate_limiter)

  unfoldable pub time_until_next_release : Now → Filtering S F → Option ℕ
  time_until_next_release now s = l.time_until_next_release now s.rate_limiter

  abbrev pub limiter : Limiter (Filtering S F)
  limiter = record {
    try_acquire_one = try_acquire_one;
    release_one = release_one;
    elapsed = λ now s.
        let (inner, e) = l.elapsed now s.rate_limiter in (record s { rate_limiter = inner }, e);
    first_acquisition_time = λ s. l.first_acquisition_time s.rate_limiter;
    time_until_next_release = time_until_next_release;
  }

-- The sampler of GraduallyOpeningRateLimiterFilter: its next value, and its bounds.
pub record Sampler (P : Type 0) : Type 0 where
  pub get_value : P → P × ℕ
  pub min_value : ℕ
  pub max_value : ℕ

pub record Ramp (P : Type 0) : Type 0 where
  pub provider : P
  pub ramp_time : ℕ

-- The constructor's checks. A ramp time is a signed duration; below zero it is refused as zero is.
unfoldable pub gradually_opening :
    {S P : Type 0} → Sampler P → S → P → ℕ → Outcome (Filtering S (Ramp P))
gradually_opening sampler s p ramp_time =
    if ramp_time == 0 || not (sampler.min_value == 1) || not (sampler.max_value == 1000000)
    then throws
    else done
        (record { rate_limiter = s; filter_state = record { provider = p; ramp_time = ramp_time } })

module _ {S P : Type 0} (d : Ops) (l : Limiter S) (sampler : Sampler P) where
  -- The filter: the fraction of the ramp that has passed is the probability of opening.
  unfoldable pub opening_filter : Now → Filtering S (Ramp P) → Filtering S (Ramp P) × Bool
  opening_filter now s =
      let (inner, e) = l.elapsed now s.rate_limiter in
      let s' : Filtering S (Ramp P) = record s { rate_limiter = inner } in
      let ramp = s.filter_state.ramp_time in
      let (p, value) = sampler.get_value s.filter_state.provider in
      let probability =
        d.sub (d.of_nat 1) (d.div (d.of_nat (ramp - e)) (d.mul (d.of_nat ramp) (d.of_nat 1))) in
      let random = d.div (d.mul (d.of_nat 1) (d.of_nat value)) (d.of_nat sampler.max_value) in
      if ltb e ramp
      then (
        record s' { filter_state = record { provider = p; ramp_time = ramp } },
        d.lt random probability,
      )
      else (s', true)
