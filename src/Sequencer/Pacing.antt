-- ===== src/Sequencer/Pacing.antt =====
-- A run of a SequencerImpl (engine/source/common/sequencer_impl.cc): what it initiates and
-- what the rate limiter lets through.
use sortie.RateLimiter.{Now, Limiter, Outcome, done, throws, aborts}
use sortie.RateLimiter.Pacer.{Pacer}
use sortie.Termination.{proceed}
use sortie.Sequencer.{Sequencer, Reply, acquire_loop, reschedule, run, judge, map_run}
use sortie.Sequencer.Loop.{IsAsync, Finishes, Paced, acquire_loop-Paced}
use sortie.Prelude.{ℕ, ◌≡◌, ◌≤◌, ◌<◌, Option, none, some, Bool, true, arith}
use sortie.Prelude.Words.{u64_mod}

module _ {S T : Type 0} (l : Limiter S) (p : Pacer l) (call_target : Now → T → Reply T) where
  -- What is initiated is what the limiter let through, and within its limit.
  pub record AtPace (now : Now) (s : Sequencer S T) : Type 0 where
    pub paced : Paced l p call_target now s
    pub within : s.targets_initiated ≤ p.limit now

  rescheduled-AtPace :
      (now after : Now) (from : Bool) (r : Option (Outcome (Sequencer S T)))
      → Finishes (Paced l p call_target now) r
      → Finishes (AtPace now) (map_run l call_target (reschedule l call_target after from) r)
  unfolding reschedule
  rescheduled-AtPace now after from none h = h
  rescheduled-AtPace now after from (some throws) h = h
  rescheduled-AtPace now after from (some aborts) h = h
  rescheduled-AtPace now after from (some (done s)) h =
      ground (arith, h.fine, p.bounded now s.rate_limiter h.fine)

  -- With a target that does not call back at once and fuel beyond the limiter's limit, a run that
  -- is to proceed returns. Every acquisition was a call that the target accepted or was handed
  -- back: the targets initiated are as many as the limiter counts, and within its limit.
  pub run_keeps_pace :
      (fuel : ℕ) (now after : Now) (counters : ℕ → ℕ) (from_periodic_timer : Bool)
      (s : Sequencer S T)
      → s.running ≡ true
      → (judge now counters s).last_termination_status ≡ proceed
      → IsAsync call_target
      → p.limit now < u64_mod
      → p.limit now < fuel
      → Paced l p call_target now s
      → Finishes (AtPace now) (run l call_target fuel now after counters from_periodic_timer s)
  unfolding run judge
  run_keeps_pace fuel now after counters from s alive v async small enough paced =
      let judged = judge now counters s in
      let paced' : Paced l p call_target now judged = record {
        fine = paced.fine;
        counted = paced.counted;
      } in
      rw (alive, run, v)
        (rescheduled-AtPace now after from (acquire_loop l call_target fuel now now judged)
          (acquire_loop-Paced l p call_target fuel now judged async small (omega arith) paced'))
