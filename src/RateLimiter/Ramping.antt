-- ===== src/RateLimiter/Ramping.antt =====
-- LinearRampingRateLimiterImpl (engine/source/common/rate_limiter_impl.{h,cc}). The arithmetic on
-- doubles is the parameter `d`.
pub mod Pace
use sortie.Prelude.{
  ◌||◌, not, ℕ, ◌-◌, Bool, true, false, Option, none, some, if◌then◌else◌, ◌==◌, ltb, max,
}
use sortie.Prelude.Words.{add64, sub64, is_positive64}
use sortie.Prelude.Double.{Ops}
use sortie.RateLimiter.{Now, Outcome, done, throws, Limiter}
use sortie.RateLimiter.Base.{Base, unstarted, elapsed, started}

pub record Ramping : Type 0 where
  pub base : Base
  pub acquireable_count : ℕ  -- int64_t
  pub acquired_count : ℕ  -- uint64_t
  pub ramp_time : ℕ
  pub frequency : ℕ

-- A ramp time is a signed duration; below zero it is refused as zero is.
unfoldable pub ramping : ℕ → ℕ → Outcome Ramping
ramping ramp_time frequency =
    if frequency == 0
    then throws
    else if ramp_time == 0
    then throws
    else done (record {
      base = unstarted;
      acquireable_count = 0;
      acquired_count = 0;
      ramp_time = ramp_time;
      frequency = frequency;
    })

unfoldable pub take_one : Ramping → Ramping
take_one l = record l {
  acquireable_count = sub64 l.acquireable_count 1;
  acquired_count = add64 l.acquired_count 1;
}

unfoldable pub release_one : Ramping → Ramping
release_one l = record l {
  acquireable_count = add64 l.acquireable_count 1;
  acquired_count = sub64 l.acquired_count 1;
}

module _ (d : Ops) where
  open d use {Double, of_nat, add, sub, mul, div, sqrt, ceil, round, lt, to_int64}

  -- The two members that the constructor computes from the others.
  unfoldable pub target_freq_ns : ℕ → Double
  target_freq_ns frequency = div (of_nat frequency) (of_nat 1_000_000_000)

  unfoldable pub total_ramp_requests : ℕ → ℕ → ℕ
  unfolding target_freq_ns
  total_ramp_requests ramp_time frequency =
      to_int64 (round (div (mul (of_nat ramp_time) (target_freq_ns frequency)) (of_nat 2)))

  -- `total` of tryAcquireOne(): while ramping a triangle, afterwards the ramp and a rectangle.
  unfoldable pub due : ℕ → ℕ → ℕ → ℕ
  unfolding target_freq_ns total_ramp_requests
  due ramp_time frequency e =
      let elapsed_fraction = sub (of_nat 1) (div (of_nat (ramp_time - e)) (of_nat ramp_time)) in
      let current_frequency = mul elapsed_fraction (of_nat frequency) in
      let seconds = div (of_nat e) (of_nat 1_000_000_000) in
      if ltb e ramp_time
      then to_int64 (round (div (mul seconds current_frequency) (of_nat 2)))
      else add64 (total_ramp_requests ramp_time frequency)
          (to_int64 (round (mul (of_nat (e - ramp_time)) (target_freq_ns frequency))))

  -- `return acquireable_count_--` is true, since the count was just seen not to be 0.
  unfoldable pub try_acquire_one : Now → Ramping → Ramping × Bool
  unfolding take_one
  try_acquire_one now l =
      let (base, e) = elapsed now l.base in
      let l' : Ramping = record l {
        base = base;
        acquireable_count = sub64 (due l.ramp_time l.frequency e) l.acquired_count;
      } in
      if not (l.acquireable_count == 0)
      then (take_one l, true)
      else if is_positive64 l'.acquireable_count
      then (take_one l', true)
      else (l', false)

  -- When the number due reaches acquired_count_ + 0.5, in nanoseconds since the start.
  unfoldable pub due_ns : Ramping → Double
  unfolding target_freq_ns total_ramp_requests
  due_ns l =
      let target = add (of_nat l.acquired_count) (div (of_nat 1) (of_nat 2)) in
      let ramp = of_nat l.ramp_time in
      let freq = target_freq_ns l.frequency in
      let on_ramp = sqrt (div (mul (mul target (of_nat 2)) ramp) freq) in
      let past =
        add ramp (div (sub target (of_nat (total_ramp_requests l.ramp_time l.frequency))) freq) in
      if lt on_ramp ramp then on_ramp else if lt ramp past then past else ramp

  -- max(0ns, ceil(due_ns) - elapsed()).
  unfoldable pub time_until_next_release : Now → Ramping → ℕ
  unfolding due_ns
  time_until_next_release now l =
      if is_positive64 l.acquireable_count || not (started l.base)
      then 0
      else to_int64 (ceil (due_ns l)) - (elapsed now l.base).1

  abbrev pub limiter : Limiter Ramping
  limiter = record {
    try_acquire_one = try_acquire_one;
    release_one = λ now l. done (release_one l);
    elapsed = λ now l. let (base, e) = elapsed now l.base in (record l { base = base }, e);
    first_acquisition_time = λ l. l.base.first_acquisition_time;
    time_until_next_release = λ now l. some (time_until_next_release now l);
  }
