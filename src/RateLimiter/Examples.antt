-- ===== src/RateLimiter/Examples.antt =====
-- Concrete limiters, and the theorems of the rate limiters applied to them.
use sortie.Prelude.{
  zero, suc, ltb, refl, ◌/◌, [], none, ◌-◌, ◌+◌, ◌*◌, ◌∷◌, some, false, leb, arith, true, ◌≤◌, ◌≡◌,
  ℕ,
}
use sortie.RateLimiter.{Now, Limiter, done, IsLowerBound}
use sortie.RateLimiter.Bursting
use sortie.RateLimiter.Bursting.{Bursting}
use sortie.RateLimiter.Bursting.Invariant.{
  Inv, After, Returns, try_acquire_one-After, release_one_restores,
}
use sortie.RateLimiter.Bursting.Conservation.{counting, Conserves, try_acquire_one-Conserves}
use sortie.RateLimiter.Delegating
use sortie.RateLimiter.Delegating.{Delegating}
use sortie.RateLimiter.Delegating.Timings.{Releases, try_acquire_one-Releases}
use sortie.RateLimiter.LowerBound.{bursting_lower_bound, delegating_lower_bound}
use sortie.RateLimiter.Linear
use sortie.RateLimiter.Linear.{Linear, linear}
use sortie.RateLimiter.Linear.Pace as LinearPace
use sortie.RateLimiter.Linear.Pace.{linear_keeps_up, linear_paced}
use sortie.RateLimiter.Ramping
use sortie.RateLimiter.Ramping.{Ramping, ramping}
use sortie.RateLimiter.Ramping.Pace as RampingPace
use sortie.RateLimiter.Ramping.Pace.{ramping_keeps_up, ramping_paced}
use sortie.RateLimiter.Base.{elapsed, unstarted}
use sortie.Prelude.Double.{Ops}

abbrev pub at : ℕ → Now
at t = record { monotonic = t; system = 1000 + t }

-- A limiter that grants one acquisition at each multiple of ten, and says when the next is due.
abbrev tens : Limiter ℕ
tens = record {
  try_acquire_one = λ now next. elim (leb next now.monotonic) [
    | true ↦ (next + 10, true)
    | false ↦ (next, false)
  ];
  release_one = λ now next. done (next - 10);
  elapsed = λ now next. (next, now.monotonic);
  first_acquisition_time = λ next. none;
  time_until_next_release = λ now next. some (next - now.monotonic);
}

tens-IsLowerBound : (next : ℕ) → IsLowerBound tens next
tens-IsLowerBound next now later wait e from before = ground arith

abbrev collecting : Bursting ℕ
collecting = record {
  rate_limiter = 10;
  burst_size = 3;
  accumulated = 2;
  releasing = false;
  previously_releasing = none;
}

collecting-Inv : Inv collecting
collecting-Inv = record {
  positive = omega arith;
  fits = omega arith;
  at_most = omega arith;
  collecting = λ _. omega arith;
  handing_out = λ e. cc;
}

try_acquire_one-After_example :
    Returns (After collecting) (Bursting.try_acquire_one tens (at 10) collecting)
try_acquire_one-After_example = try_acquire_one-After tens (at 10) collecting collecting-Inv

abbrev handed_out : Bursting ℕ
handed_out = record {
  rate_limiter = 20;
  burst_size = 3;
  accumulated = 2;
  releasing = true;
  previously_releasing = some true;
}

-- The third acquisition completes the burst, and the first of three is handed out.
bursts : Bursting.try_acquire_one tens (at 10) collecting ≡ some (handed_out, true)
unfolding Bursting.try_acquire_one
bursts = refl

release_one_restores_example :
    (c : Bursting ℕ) × (Bursting.release_one handed_out ≡ done c)
    × Inv c
    × (Bursting.try_acquire_one tens (at 11) c ≡ some (handed_out, true))
release_one_restores_example =
    release_one_restores tens collecting handed_out (at 10) (at 11) collecting-Inv bursts

abbrev counted : Bursting (ℕ × ℕ)
counted = record {
  rate_limiter = (2, 10);
  burst_size = 3;
  accumulated = 2;
  releasing = false;
  previously_releasing = none;
}

try_acquire_one-Conserves_example :
    Returns (Conserves counted) (Bursting.try_acquire_one (counting tens) (at 10) counted)
try_acquire_one-Conserves_example = try_acquire_one-Conserves tens (at 10) counted (record {
  positive = omega arith;
  fits = omega arith;
  at_most = omega arith;
  collecting = λ _. omega arith;
  handing_out = λ e. cc;
})

abbrev pending : Delegating ℕ ℕ
pending = record {
  rate_limiter = 50;
  generator = 7;
  distributed_timings = 30 ∷ 44 ∷ [];
  sanity_check_pending_release = true;
}

try_acquire_one-Releases_example :
    Releases pending
      (Delegating.try_acquire_one tens (λ g. (g, g)) (at 50) pending).0
      true
      50
      0
      (Delegating.try_acquire_one tens (λ g. (g, g)) (at 50) pending).1
try_acquire_one-Releases_example =
    try_acquire_one-Releases tens (λ g. (g, g)) 0 (at 50) pending (omega arith) (omega arith)

bursting_lower_bound_example :
    Returns (λ r. r.1 ≡ false) (Bursting.try_acquire_one tens (at 7) collecting)
unfolding Bursting.time_until_next_release
bursting_lower_bound_example =
    bursting_lower_bound tens collecting (at 4) (at 7) 6 (omega arith) (tens-IsLowerBound 10) refl
      (omega arith) (omega arith)

delegating_lower_bound_example :
    (Delegating.try_acquire_one tens (λ (g : ℕ). (g, g)) (at 29) pending).1 ≡ false
unfolding Delegating.time_until_next_release
delegating_lower_bound_example =
    delegating_lower_bound tens (λ g. (g, g)) pending (at 21) (at 29) 9 (tens-IsLowerBound 50) refl
      (omega arith) (omega arith)

-- Exact fractions: an instance of the operations on doubles.
abbrev pub fractions : Ops
fractions = record {
  Double = ℕ × ℕ;
  of_nat = λ n. (n, 1);
  add = λ x y. (x.0 * y.1 + y.0 * x.1, x.1 * y.1);
  sub = λ x y. (x.0 * y.1 - y.0 * x.1, x.1 * y.1);
  mul = λ x y. (x.0 * y.0, x.1 * y.1);
  div = λ x y. (x.0 * y.1, x.1 * y.0);
  sqrt = λ x. x;
  floor = λ x. (x.0 / x.1, 1);
  ceil = λ x. ((x.0 + x.1 - 1) / x.1, 1);
  round = λ x. ((2 * x.0 + x.1) / (2 * x.1), 1);
  lt = λ x y. ltb (x.0 * y.1) (y.0 * x.1);
  to_int64 = λ x. x.0 / x.1;
}

abbrev one_hertz : Linear
one_hertz = record { base = unstarted; acquireable_count = 0; acquired_count = 0; frequency = 1 }

abbrev pub second : ℕ
second = 1_000_000_000

fractions-IsMonotone : (limit : ℕ) → LinearPace.IsMonotone fractions 1 limit
unfolding Linear.due
fractions-IsMonotone limit e e' h k = omega arith

-- Asked at 0 s, 1 s and 2.5 s with nothing handed back, one a second has let through at most 3.
linear_paced_example :
    (LinearPace.run fractions one_hertz
      ((at 0, true) ∷ (at second, true) ∷ (at (5 * second / 2), true) ∷ [])).acquired_count
    ≤ Linear.due fractions 1 (5 * second / 2 - 0)
unfolding linear Linear.due
linear_paced_example =
    linear_paced fractions 1 one_hertz (at 0) true
      ((at second, true) ∷ (at (5 * second / 2), true) ∷ []) refl (fractions-IsMonotone _)
      (omega arith) (omega arith)

abbrev ramp_of_4 : Ramping
ramp_of_4 = record {
  base = unstarted;
  acquireable_count = 0;
  acquired_count = 0;
  ramp_time = 4;
  frequency = second;
}

-- What a ramp of 4 ns to one a nanosecond makes due.
abbrev triangle_and_line : ℕ → ℕ
triangle_and_line (suc (suc (suc (suc e)))) = 2 + e
triangle_and_line (suc (suc e)) = 1
triangle_and_line _ = 0

ramp_due : (e : ℕ) → e ≤ 1000 → Ramping.due fractions 4 second e ≡ triangle_and_line e
unfolding Ramping.due
ramp_due (suc (suc (suc (suc e)))) h = ground arith
ramp_due (suc (suc (suc zero))) h = refl
ramp_due (suc (suc zero)) h = refl
ramp_due (suc zero) h = refl
ramp_due zero h = refl

triangle_and_line_mono : (e e' : ℕ) → e ≤ e' → triangle_and_line e ≤ triangle_and_line e'
triangle_and_line_mono (suc (suc (suc (suc e)))) (suc (suc (suc (suc e')))) h = omega arith
triangle_and_line_mono (suc (suc (suc zero))) (suc (suc (suc (suc e')))) h = omega arith
triangle_and_line_mono (suc (suc zero)) (suc (suc (suc (suc e')))) h = omega arith
triangle_and_line_mono _ _ h = omega arith

ramp-IsMonotone : RampingPace.IsMonotone fractions 4 second 1000
ramp-IsMonotone e e' h k =
    rw (ramp_due e (omega arith), ramp_due e' k) (triangle_and_line_mono e e' h)

-- Asked at the start and after 6 ns and 1000 ns, a ramp has let through no more than is due.
ramping_paced_example :
    (RampingPace.run fractions ramp_of_4
      ((at 0, true) ∷ (at 6, true) ∷ (at 1000, true) ∷ [])).acquired_count
    ≤ Ramping.due fractions 4 second (1000 - 0)
unfolding ramping
ramping_paced_example =
    ramping_paced fractions 4 second ramp_of_4 (at 0) true ((at 6, true) ∷ (at 1000, true) ∷ [])
      refl ramp-IsMonotone (omega arith) (rw (ramp_due 1000 (omega arith)) (omega arith))

linear_keeps_up_example :
    (Linear.try_acquire_one fractions
      (at second)
      (LinearPace.run fractions one_hertz ((at 0, true) ∷ (at second, true) ∷ []))).0.acquired_count
    ≡ Linear.due fractions 1 (second - 0)
unfolding linear Linear.due Linear.try_acquire_one elapsed
linear_keeps_up_example =
    linear_keeps_up fractions 1 one_hertz (at 0) (at second) true ((at second, true) ∷ []) refl
      (fractions-IsMonotone _) (omega arith) (omega arith) refl refl

ramping_keeps_up_example :
    (Ramping.try_acquire_one fractions (at 6) (
      RampingPace.run fractions ramp_of_4 (
        (at 0, true)
        ∷ (at 6, true)
        ∷ (at 6, true)
        ∷ (at 6, true)
        ∷ (at 6, true)
        ∷ []))).0.acquired_count
    ≡ Ramping.due fractions 4 second (6 - 0)
unfolding ramping Ramping.due Ramping.try_acquire_one elapsed
ramping_keeps_up_example =
    ramping_keeps_up fractions 4 second ramp_of_4 (at 0) (at 6) true
      ((at 6, true) ∷ (at 6, true) ∷ (at 6, true) ∷ (at 6, true) ∷ []) refl
      (λ e e' h k. ramp-IsMonotone e e' h (omega arith)) (omega arith) (omega arith) refl refl
