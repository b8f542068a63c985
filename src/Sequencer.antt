-- ===== src/Sequencer.antt =====
-- SequencerImpl (engine/source/common/sequencer_impl.{h,cc}): drives calls of a target at the pace
-- of a rate limiter, until a termination predicate says to stop.
pub mod Loop
pub mod Timers
pub mod Pacing
mod Examples
use sortie.Prelude.{
  ℕ, zero, suc, ◌+◌, ◌-◌, ◌*◌, ◌/◌, Bool, true, false, Option, none, some, List, [], ◌∷◌, ltb, leb,
  ◌==◌, ◌&&◌, min, if◌then◌else◌,
}
use sortie.Prelude.Words.{add64}
use sortie.RateLimiter.{Now, Outcome, done, throws, aborts, map_outcome, Limiter}
use sortie.Termination.{Status, proceed, terminate, fail, is_proceed, World, Chain, evaluate_chain}

pub data IdleStrategy : Type 0 where
  default_strategy spin poll sleep wait : IdleStrategy

abbrev pub is_wait : IdleStrategy → Bool
is_wait wait = true
is_wait _ = false

-- Timers are armed for a number of microseconds, or not armed; statistics hold what was recorded
-- on them, newest first.
pub record Sequencer (S T : Type 0) : Type 0 where
  pub target : T
  pub rate_limiter : S
  pub latency_statistic : List ℕ
  pub blocked_statistic : List ℕ
  pub periodic_timer : Option ℕ
  pub spin_timer : Option ℕ
  pub targets_initiated : ℕ
  pub targets_completed : ℕ
  pub running : Bool
  pub stopped_after : Option ℕ
  pub blocked : Bool
  pub blocked_start : ℕ
  pub idle_strategy : IdleStrategy
  pub termination_predicate : Chain
  pub last_termination_status : Status
  pub failed_terminations : ℕ
  pub dispatcher_exited : Bool

unfoldable pub sequencer : {S T : Type 0} → S → T → IdleStrategy → Chain → Sequencer S T
sequencer s t strategy predicate = record {
  target = t;
  rate_limiter = s;
  latency_statistic = [];
  blocked_statistic = [];
  periodic_timer = none;
  spin_timer = none;
  targets_initiated = 0;
  targets_completed = 0;
  running = false;
  stopped_after = none;
  blocked = false;
  blocked_start = 0;
  idle_strategy = strategy;
  termination_predicate = predicate;
  last_termination_status = proceed;
  failed_terminations = 0;
  dispatcher_exited = false;
}

-- 25 us, and 5 ms, in microseconds.
abbrev pub timer_resolution : ℕ
timer_resolution = 25

abbrev pub max_idle_wait : ℕ
max_idle_wait = 5000

-- What a call of the target returns, and the clock at each callback that it made before that.
pub record Reply (T : Type 0) : Type 0 where
  pub target : T
  pub could_start : Bool
  pub completions : List Now

module _ {S T : Type 0} where
  unfoldable pub unblock_and_update_statistic_if_needed : Now → Sequencer S T → Sequencer S T
  unblock_and_update_statistic_if_needed now s =
      if s.blocked
      then record s {
        blocked = false;
        blocked_statistic = (now.monotonic - s.blocked_start) ∷ s.blocked_statistic;
      }
      else s

  unfoldable pub update_start_blocking_time_if_needed : Now → Sequencer S T → Sequencer S T
  update_start_blocking_time_if_needed now s =
      if s.blocked then s else record s { blocked = true; blocked_start = now.monotonic }

  -- The callback that a run at `started` handed to the target, when it is called at `now`.
  unfoldable pub complete : Now → Now → Sequencer S T → Sequencer S T
  complete started now s = record s {
    latency_statistic = (now.monotonic - started.monotonic) ∷ s.latency_statistic;
    targets_completed = add64 s.targets_completed 1;
    spin_timer = if s.running then some 0 else s.spin_timer;
  }

  unfoldable pub complete_all : Now → List Now → Sequencer S T → Sequencer S T
  unfolding complete
  complete_all started [] s = s
  complete_all started (now ∷ rest) s = complete_all started rest (complete started now s)

  -- The chain is asked until it once does not say PROCEED; that verdict stays.
  unfoldable pub judge : Now → (ℕ → ℕ) → Sequencer S T → Sequencer S T
  judge now counters s = record s {
    last_termination_status =
        if is_proceed s.last_termination_status
        then evaluate_chain (record { monotonic = now.monotonic; counters = counters })
            s.termination_predicate
        else s.last_termination_status;
  }

-- The cached clock after the callbacks, each of which updates it.
abbrev pub latest : Now → List Now → Now
latest clock [] = clock
latest clock (now ∷ rest) = latest now rest

-- ceil to microseconds.
abbrev pub ceil_microseconds : ℕ → ℕ
ceil_microseconds ns = (ns + 999) / 1000

unfoldable pub idle_wait : Option ℕ → ℕ
idle_wait none = timer_resolution
idle_wait (some until_next_release) =
    if until_next_release == 0
    then timer_resolution
    else min max_idle_wait (ceil_microseconds until_next_release)

module _ {S T : Type 0} (l : Limiter S) (call_target : Now → T → Reply T) where
  unfoldable pub schedule_run : Now → Sequencer S T → Sequencer S T
  unfolding idle_wait
  schedule_run now s = record s {
    periodic_timer = some (
        if is_wait s.idle_strategy
        then idle_wait (l.time_until_next_release now s.rate_limiter)
        else timer_resolution);
  }

  -- stop(): the rate for the log line asks the limiter for its elapsed time a first time.
  unfoldable pub stop : Now → Bool → Sequencer S T → Sequencer S T
  unfolding unblock_and_update_statistic_if_needed
  stop now failed s =
      let (asked, _) = l.elapsed now s.rate_limiter in
      let (inner, elapsed) = l.elapsed now asked in
      let stopped : Sequencer S T = record s {
        failed_terminations =
            if failed then add64 s.failed_terminations 1 else s.failed_terminations;
        running = false;
        periodic_timer = none;
        spin_timer = none;
        dispatcher_exited = true;
      } in
      record (unblock_and_update_statistic_if_needed now stopped) {
        rate_limiter = inner;
        stopped_after = some elapsed;
      }

  -- A call of the target was accepted, or was refused and its acquisition is handed back.
  unfoldable pub initiated : Now → Sequencer S T → Sequencer S T
  unfolding unblock_and_update_statistic_if_needed
  initiated now s = record (unblock_and_update_statistic_if_needed now s) {
    targets_initiated = add64 s.targets_initiated 1;
  }

  unfoldable pub refused : Now → Sequencer S T → Outcome (Sequencer S T)
  unfolding update_start_blocking_time_if_needed
  refused clock s =
      map_outcome
        (λ inner. record (update_start_blocking_time_if_needed clock s) { rate_limiter = inner })
        (l.release_one clock s.rate_limiter)

  -- The loop of run(): `now` is the time of the run, `clock` the cached clock, and `none` means
  -- that the fuel ran out.
  unfoldable pub acquire_loop : ℕ → Now → Now → Sequencer S T → Option (Outcome (Sequencer S T))
  unfolding complete_all initiated refused
  acquire_loop zero now clock s = none
  acquire_loop (suc fuel) now clock s =
      let (inner, acquired) = l.try_acquire_one clock s.rate_limiter in
      elim acquired [
        | false ↦ some (done (record s { rate_limiter = inner }))
        | true ↦
            let reply = call_target clock s.target in
            let called : Sequencer S T =
              complete_all now reply.completions
                (record s { rate_limiter = inner; target = reply.target }) in
            let later = latest clock reply.completions in
            elim reply.could_start [
              | true ↦ acquire_loop fuel now later (initiated now called)
              | false ↦ some (refused later called)
            ]
      ]

  -- What run() arms before it returns. Yielding and sleeping leave the state alone.
  unfoldable pub reschedule : Now → Bool → Sequencer S T → Sequencer S T
  unfolding schedule_run
  reschedule now from_periodic_timer s = elim s.idle_strategy [
    | wait ↦ schedule_run now s
    | spin ↦
        if from_periodic_timer
        then schedule_run now s
        else if s.targets_initiated == s.targets_completed
        then record s { spin_timer = some 0 }
        else s
    | sleep ↦ if from_periodic_timer then schedule_run now s else record s { spin_timer = some 0 }
    | _ ↦ if from_periodic_timer then schedule_run now s else s
  ]

  abbrev pub map_run :
      (Sequencer S T → Sequencer S T)
      → Option (Outcome (Sequencer S T))
      → Option (Outcome (Sequencer S T))
  map_run f none = none
  map_run f (some r) = some (map_outcome f r)

  -- run(): the predicates first, then the loop. Timers are armed from `after`, the clock's reading
  -- once the loop is over.
  unfoldable pub run :
      ℕ → Now → Now → (ℕ → ℕ) → Bool → Sequencer S T → Option (Outcome (Sequencer S T))
  unfolding acquire_loop reschedule stop judge
  run fuel now after counters from_periodic_timer s =
      let judged = judge now counters s in
      if s.running
      then elim judged.last_termination_status [
        | proceed ↦
            map_run (reschedule after from_periodic_timer) (acquire_loop fuel now now judged)
        | terminate ↦ some (done (stop now false judged))
        | fail ↦ some (done (stop now true judged))
      ]
      else some aborts

  unfoldable pub start : ℕ → Now → Now → (ℕ → ℕ) → Sequencer S T → Option (Outcome (Sequencer S T))
  unfolding run schedule_run
  start fuel now after counters s =
      if s.running
      then some aborts
      else run fuel now after counters false (schedule_run now (record s { running = true }))

  -- executionDuration(): latched by stop().
  unfoldable pub execution_duration : Now → Sequencer S T → ℕ
  execution_duration now s = elim s.stopped_after [
    | none ↦ (l.elapsed now s.rate_limiter).1
    | some elapsed ↦ elapsed
  ]
