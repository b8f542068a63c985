-- ===== src/RateLimiter/Linear.antt =====
-- LinearRateLimiter (engine/source/common/rate_limiter_impl.{h,cc}) and Frequency
-- (engine/source/common/frequency.h). The arithmetic on doubles is the parameter `d`.
pub mod Pace
pub mod Pacing
use sortie.Prelude.{not, ◌||◌, ℕ, Bool, true, false, Option, none, some, if◌then◌else◌, ◌==◌}
use sortie.Prelude.Words.{add64, sub64, is_positive64}
use sortie.Prelude.Double.{Ops}
use sortie.RateLimiter.{Now, Outcome, done, throws, Limiter}
use sortie.RateLimiter.Base.{Base, unstarted, elapsed, started}

pub record Linear : Type 0 where
  pub base : Base
  pub acquireable_count : ℕ  -- int64_t
  pub acquired_count : ℕ  -- uint64_t
  pub frequency : ℕ

-- The constructor refuses a frequency of 0.
unfoldable pub linear : ℕ → Outcome Linear
linear frequency =
    if frequency == 0
    then throws
    else done (record {
      base = unstarted;
      acquireable_count = 0;
      acquired_count = 0;
      frequency = frequency;
    })

-- The first branch of tryAcquireOne().
unfoldable pub take_one : Linear → Linear
take_one l = record l {
  acquireable_count = sub64 l.acquireable_count 1;
  acquired_count = add64 l.acquired_count 1;
}

unfoldable pub release_one : Linear → Linear
release_one l = record l {
  acquireable_count = add64 l.acquireable_count 1;
  acquired_count = sub64 l.acquired_count 1;
}

module _ (d : Ops) where
  open d use {Double, of_nat, add, sub, mul, div, floor, ceil, lt, to_int64}

  -- Frequency::interval(), a double of seconds.
  unfoldable pub interval : ℕ → Double
  interval hertz = div (of_nat 1) (of_nat hertz)

  -- A double of seconds beside a number of nanoseconds becomes a double of nanoseconds.
  abbrev in_nanos : Double → Double
  in_nanos seconds = mul seconds (of_nat 1_000_000_000)

  -- static_cast<int64_t>(std::floor(phase_shifted / frequency_.interval())).
  unfoldable pub due : ℕ → ℕ → ℕ
  unfolding interval
  due hertz e =
      let phase_shifted = add (of_nat e) (in_nanos (div (interval hertz) (of_nat 2))) in
      to_int64 (floor (div phase_shifted (in_nanos (interval hertz))))

  unfoldable pub try_acquire_one : Now → Linear → Linear × Bool
  unfolding take_one
  try_acquire_one now l =
      let (base, e) = elapsed now l.base in
      let l' : Linear = record l {
        base = base;
        acquireable_count = sub64 (due l.frequency e) l.acquired_count;
      } in
      if is_positive64 l.acquireable_count
      then (take_one l, true)
      else if is_positive64 l'.acquireable_count
      then (take_one l', true)
      else (l', false)

  -- max(0ns, ceil(due - elapsed())); only a started limiter reads the clock here.
  unfoldable pub time_until_next_release : Now → Linear → ℕ
  unfolding interval
  time_until_next_release now l =
      let next =
        sub (mul (interval l.frequency) (of_nat (add64 l.acquired_count 1)))
          (div (interval l.frequency) (of_nat 2)) in
      let wait = ceil (sub (in_nanos next) (of_nat (elapsed now l.base).1)) in
      if is_positive64 l.acquireable_count || not (started l.base)
      then 0
      else if lt wait (of_nat 0)
      then 0
      else to_int64 wait

  abbrev pub limiter : Limiter Linear
  limiter = record {
    try_acquire_one = try_acquire_one;
    release_one = λ now l. done (release_one l);
    elapsed = λ now l. let (base, e) = elapsed now l.base in (record l { base = base }, e);
    first_acquisition_time = λ l. l.base.first_acquisition_time;
    time_until_next_release = λ now l. some (time_until_next_release now l);
  }
