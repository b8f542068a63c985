-- ===== src/Sequencer/Examples.antt =====
-- A sequencer over one acquisition a second, and the theorems applied to it.
use sortie.RateLimiter.{Now}
use sortie.RateLimiter.Linear
use sortie.RateLimiter.Linear.{Linear}
use sortie.RateLimiter.Linear.Pacing.{linear_pacer}
use sortie.RateLimiter.Examples.{fractions, at, second}
use sortie.Termination.{evaluate_chain, last, duration}
use sortie.Sequencer.{
  timer_resolution, max_idle_wait, idle_wait, Sequencer, sequencer, Reply, run, judge, wait,
}
use sortie.Sequencer.Loop.{Finishes, Paced}
use sortie.Sequencer.Timers.{idle_wait_bounds, Each, Armed, run_stops_or_rearms}
use sortie.Sequencer.Pacing.{AtPace, run_keeps_pace}
use sortie.Prelude.{
  ◌+◌, ◌<◌, ◌≤◌, ◌⊎◌, ◌≡◌, ◌*◌, ℕ, ltb, ◌-◌, [], refl, arith, true, false, inr, some, none,
}

-- A target with room for a number of calls.
abbrev slots : Now → ℕ → Reply ℕ
slots now room = record { target = room - 1; could_start = ltb 0 room; completions = [] }

-- Started at 0 s, with one acquisition so far.
abbrev started_linear : Linear
started_linear = record {
  base = record { start_time = some 0; first_acquisition_time = some 1000 };
  acquireable_count = 0;
  acquired_count = 1;
  frequency = 1;
}

abbrev one_initiated : Sequencer Linear ℕ
unfolding sequencer
one_initiated = record (sequencer started_linear 1 wait (last (duration 0 10_000_000))) {
  running = true;
  targets_initiated = 1;
  periodic_timer = some 25;
}

abbrev no_counters : ℕ → ℕ
no_counters _ = 0

one_initiated-Paced :
    Paced
      (Linear.limiter fractions)
      (linear_pacer fractions 1 0)
      slots
      (at (4 * second))
      one_initiated
unfolding sequencer Linear.due
one_initiated-Paced = record {
  fine = record {
    running = refl;
    same_frequency = refl;
    paced = omega arith;
    representable = omega arith;
  };
  counted = refl;
}

run_keeps_pace_example :
    Finishes
      (AtPace (Linear.limiter fractions) (linear_pacer fractions 1 0) slots (at (4 * second)))
      (run
        (Linear.limiter fractions)
        slots
        10
        (at (4 * second))
        (at (4 * second))
        no_counters
        true
        one_initiated)
unfolding sequencer judge Linear.due evaluate_chain
run_keeps_pace_example =
    run_keeps_pace (Linear.limiter fractions) (linear_pacer fractions 1 0) slots 10
      (at (4 * second)) (at (4 * second)) no_counters true one_initiated refl refl (λ clock t. refl)
      (omega arith) (omega arith) one_initiated-Paced

run_stops_or_rearms_example :
    Each
      (λ s'.
        ((s'.running ≡ false)
          × (s'.periodic_timer ≡ none)
          × (s'.spin_timer ≡ none)
          × (s'.dispatcher_exited ≡ true))
        ⊎ ((s'.running ≡ true) × Armed s'.periodic_timer))
      (run
        (Linear.limiter fractions)
        slots
        9
        (at second)
        (at second)
        no_counters
        false
        one_initiated)
unfolding sequencer
run_stops_or_rearms_example =
    run_stops_or_rearms (Linear.limiter fractions) slots 9 (at second) (at second) no_counters false
      one_initiated (inr (omega arith))

-- Two and a half milliseconds and a nanosecond.
abbrev odd_wait : ℕ
odd_wait = 2_500_001

idle_wait_bounds_example :
    (1 ≤ idle_wait (some odd_wait))
    × (idle_wait (some odd_wait) ≤ max_idle_wait)
    × ((max_idle_wait * 1000 < odd_wait) ⊎ (odd_wait ≤ idle_wait (some odd_wait) * 1000))
    × ((odd_wait ≤ max_idle_wait * 1000) ⊎ (idle_wait (some odd_wait) ≡ max_idle_wait))
    × ((odd_wait ≡ 0) ⊎ (idle_wait (some odd_wait) * 1000 < odd_wait + 1000))
    × (idle_wait none ≡ timer_resolution)
    × (idle_wait (some 0) ≡ timer_resolution)
idle_wait_bounds_example = idle_wait_bounds (some odd_wait) odd_wait
