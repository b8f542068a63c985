-- ===== src/Sequencer/Timers.antt =====
-- The timers of a SequencerImpl (engine/source/common/sequencer_impl.cc).
use sortie.RateLimiter.{Now, Limiter, Outcome, done, throws, aborts}
use sortie.Termination.{Status, proceed, terminate, fail}
use sortie.Sequencer.{
  timer_resolution, judge, map_run, latest, Sequencer, Reply, complete, complete_all, initiated,
  refused, acquire_loop, reschedule, stop, run, idle_wait, max_idle_wait,
}
use sortie.Prelude.{
  ◌∙◌, ℕ, zero, suc, ◌≡◌, ◌≤◌, ◌<◌, ◌*◌, ◌+◌, Option, none, some, Bool, true, false, ◌⊎◌, inl, inr,
  List, [], ◌∷◌, refl, arith, Bool-cases,
}

-- The wait under the WAIT strategy, whatever the limiter announces, is at least one microsecond and
-- at most 5 ms. With a release announced for later, it does not end before that release, unless the
-- release is more than 5 ms away, when the wait is 5 ms; and it ends less than a microsecond after
-- the release. With no announcement, or with one of a release right now, it is the 25 microseconds
-- of the timer's resolution.
pub idle_wait_bounds :
    (announced : Option ℕ) (ns : ℕ)
    → (1 ≤ idle_wait announced)
      × (idle_wait announced ≤ max_idle_wait)
      × ((max_idle_wait * 1000 < ns) ⊎ (ns ≤ idle_wait (some ns) * 1000))
      × ((ns ≤ max_idle_wait * 1000) ⊎ (idle_wait (some ns) ≡ max_idle_wait))
      × ((ns ≡ 0) ⊎ (idle_wait (some ns) * 1000 < ns + 1000))
      × (idle_wait none ≡ timer_resolution)
      × (idle_wait (some 0) ≡ timer_resolution)
unfolding idle_wait
idle_wait_bounds none ns =
    (omega arith, omega arith, ground arith, ground arith, ground arith, refl, refl)
idle_wait_bounds (some until_next_release) ns =
    (ground arith, ground arith, ground arith, ground arith, ground arith, refl, refl)

-- Armed for between one microsecond and 5 ms.
abbrev pub Armed : Option ℕ → Type 0
Armed none = ⊥
Armed (some us) = (1 ≤ us) × (us ≤ max_idle_wait)

-- What every state that a call returns satisfies, if it returns one.
abbrev pub Each :
    {S T : Type 0} → (Sequencer S T → Type 0) → Option (Outcome (Sequencer S T)) → Type 0
Each P (some (done s)) = P s
Each P _ = Unit {0}

-- The loop leaves these alone.
pub record Keeps {S T : Type 0} (s s' : Sequencer S T) : Type 0 where
  pub periodic : s'.periodic_timer ≡ s.periodic_timer
  pub running : s'.running ≡ s.running
  pub strategy : s'.idle_strategy ≡ s.idle_strategy

Keeps-trans : {S T : Type 0} (a b c : Sequencer S T) → Keeps a b → Keeps b c → Keeps a c
Keeps-trans a b c h k = record {
  periodic = k.periodic ∙ h.periodic;
  running = k.running ∙ h.running;
  strategy = k.strategy ∙ h.strategy;
}

Each-Keeps :
    {S T : Type 0} (a b : Sequencer S T) (r : Option (Outcome (Sequencer S T)))
    → Keeps a b
    → Each (Keeps b) r
    → Each (Keeps a) r
Each-Keeps a b none h k = tt
Each-Keeps a b (some (done c)) h k = Keeps-trans a b c h k
Each-Keeps a b (some throws) h k = tt
Each-Keeps a b (some aborts) h k = tt

complete_all-Keeps :
    {S T : Type 0} (started : Now) (times : List Now) (s : Sequencer S T)
    → Keeps s (complete_all started times s)
unfolding complete_all
complete_all-Keeps started [] s = record { periodic = refl; running = refl; strategy = refl }
complete_all-Keeps started (now ∷ rest) s =
    ground (arith, complete_all-Keeps started rest (complete started now s))

module _ {S T : Type 0} (l : Limiter S) (call_target : Now → T → Reply T) where
  initiated-Keeps : (now : Now) (s : Sequencer S T) → Keeps s (initiated l call_target now s)
  unfolding initiated
  initiated-Keeps now s = ground arith

  refused-Keeps :
      (now : Now) (s : Sequencer S T) → Each (Keeps s) (some (refused l call_target now s))
  unfolding refused
  refused-Keeps now s = ground arith

  acquire_loop-Keeps :
      (fuel : ℕ) (now clock : Now) (s : Sequencer S T)
      → Each (Keeps s) (acquire_loop l call_target fuel now clock s)
  unfolding acquire_loop
  acquire_loop-Keeps zero now clock s = tt
  acquire_loop-Keeps (suc fuel) now clock s =
      let reply = call_target clock s.target in
      let asked : Sequencer S T = record s {
        rate_limiter = (l.try_acquire_one clock s.rate_limiter).0;
        target = reply.target;
      } in
      let called : Sequencer S T = complete_all now reply.completions asked in
      let later = latest clock reply.completions in
      let next : Sequencer S T = initiated l call_target now called in
      let k = complete_all-Keeps now reply.completions asked in
      let kept : Keeps s called = record {
        periodic = k.periodic;
        running = k.running;
        strategy = k.strategy;
      } in
      elim (Bool-cases (l.try_acquire_one clock s.rate_limiter).1) [
        | inr no_more ↦
            rw (no_more, acquire_loop) (record { periodic = refl; running = refl; strategy = refl })
        | inl more ↦ elim (Bool-cases reply.could_start) [
          | inl starts ↦
              rw (more, acquire_loop, starts)
                (Each-Keeps s next (acquire_loop l call_target fuel now later next)
                  (Keeps-trans s called next kept (initiated-Keeps now called))
                  (acquire_loop-Keeps fuel now later next))
          | inr full ↦
              rw (more, acquire_loop, full)
                (Each-Keeps s called (some (refused l call_target later called)) kept
                  (refused-Keeps later called))
        ]
      ]

  reschedule-Armed :
      (now : Now) (from : Bool) (s : Sequencer S T)
      → (from ≡ true) ⊎ Armed s.periodic_timer
      → Armed (reschedule l call_target now from s).periodic_timer
  unfolding reschedule
  reschedule-Armed now from s h = ground arith

  abbrev StopsOrRearms : Sequencer S T → Type 0
  StopsOrRearms s =
      ((s.running ≡ false)
        × (s.periodic_timer ≡ none)
        × (s.spin_timer ≡ none)
        × (s.dispatcher_exited ≡ true))
      ⊎ ((s.running ≡ true) × Armed s.periodic_timer)

  stop_lets_go :
      (now : Now) (failed : Bool) (s : Sequencer S T)
      → StopsOrRearms (stop l call_target now failed s)
  unfolding stop
  stop_lets_go now failed s = inl (ground arith, ground arith, ground arith, ground arith)

  reschedule_running :
      (now : Now) (from : Bool) (s : Sequencer S T)
      → (reschedule l call_target now from s).running ≡ s.running
  unfolding reschedule
  reschedule_running now from s = ground arith

  rescheduled :
      (after : Now) (from : Bool) (s : Sequencer S T) (r : Option (Outcome (Sequencer S T)))
      → s.running ≡ true
      → (from ≡ true) ⊎ Armed s.periodic_timer
      → Each (Keeps s) r
      → Each StopsOrRearms (map_run l call_target (reschedule l call_target after from) r)
  rescheduled after from s none alive h k = tt
  rescheduled after from s (some throws) alive h k = tt
  rescheduled after from s (some aborts) alive h k = tt
  rescheduled after from s (some (done s')) alive h k = inr (
    reschedule_running after from s' ∙ k.running ∙ alive,
    reschedule-Armed after from s' (rw k.periodic h),
  )

  by_verdict :
      (verdict : Status) (fuel : ℕ) (now after : Now) (from : Bool) (s : Sequencer S T)
      → s.running ≡ true
      → (from ≡ true) ⊎ Armed s.periodic_timer
      → Each StopsOrRearms (elim verdict [
        | proceed ↦
            map_run l call_target
              (reschedule l call_target after from)
              (acquire_loop l call_target fuel now now s)
        | terminate ↦ some (done (stop l call_target now false s))
        | fail ↦ some (done (stop l call_target now true s))
      ])
  by_verdict proceed fuel now after from s alive h =
      rescheduled after from s (acquire_loop l call_target fuel now now s) alive h
        (acquire_loop-Keeps fuel now now s)
  by_verdict terminate fuel now after from s alive h = stop_lets_go now false s
  by_verdict fail fuel now after from s alive h = stop_lets_go now true s

  -- run() either stops the sequencer, which lets go of both timers and of the dispatcher, or leaves
  -- it running with the periodic timer armed for between one microsecond and 5 ms. It is called by
  -- the periodic timer, or while that timer is armed; the state is that of a run which returns.
  pub run_stops_or_rearms :
      (fuel : ℕ) (now after : Now) (counters : ℕ → ℕ) (from_periodic_timer : Bool)
      (s : Sequencer S T)
      → (from_periodic_timer ≡ true) ⊎ Armed s.periodic_timer
      → Each
          (λ s'.
            ((s'.running ≡ false)
              × (s'.periodic_timer ≡ none)
              × (s'.spin_timer ≡ none)
              × (s'.dispatcher_exited ≡ true))
            ⊎ ((s'.running ≡ true) × Armed s'.periodic_timer))
          (run l call_target fuel now after counters from_periodic_timer s)
  unfolding run
  run_stops_or_rearms fuel now after counters from s h =
      let judged = judge now counters s in
      elim (Bool-cases s.running) [
        | inr idle ↦ rw (idle, run) tt
        | inl alive ↦
            rw (alive, run)
              (by_verdict judged.last_termination_status fuel now after from judged alive h)
      ]
