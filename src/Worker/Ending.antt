-- ===== src/Worker/Ending.antt =====
-- The end of a worker (WorkerImpl::shutdown() of engine/source/common/worker_impl.cc).
use sortie.Worker.Lifetime.{new-Lived, Reaches-Lived}
use sortie.Worker.Steps.{Lived, begun_by, or_stays}
use sortie.Prelude.{
  lt→ltb, zero, suc, ℕ, ◌-◌, ◌≤◌, ◌<◌, ◌≡◌, refl, sym, ap, ◌∙◌, Bool, true, false, none, some,
  arith, if◌then◌else◌, one_if,
}
use sortie.Worker.{
  has_ended, new_worker, Reaches, thread_step, destroys, join, initiate_shutdown, thread_step_at,
  Stage, Worker, no_thread, polling, working, completing, waiting_exit, shutting_down, leaving,
  ended,
}

-- The worker's own thread alone, for a number of steps.
abbrev pub run_thread : ℕ → Worker → Worker
run_thread zero w = w
run_thread (suc n) w = run_thread n (or_stays w (thread_step w))

abbrev remaining : Stage → ℕ
remaining no_thread = 0
remaining polling = 6
remaining working = 5
remaining completing = 4
remaining waiting_exit = 3
remaining shutting_down = 2
remaining leaving = 1
remaining ended = 0

-- A step of the thread once it may exit.
record Nearer (w v : Worker) : Type 0 where
  closer : remaining v.stage ≤ remaining w.stage - 1
  still_begun : begun_by v.stage ≡ begun_by w.stage
  still_told : v.signal_thread_to_exit ≡ w.signal_thread_to_exit
  as_shut : v.shutdown ≡ w.shutdown

advances :
    (w : Worker) (r s : Stage) (a b c : ℕ)
    → w.stage ≡ s
    → remaining r ≤ remaining s - 1
    → begun_by r ≡ begun_by s
    → Nearer w (record w { stage = r; works = a; complete = b; shutdowns = c })
advances w r s a b c e fewer begun = record {
  closer = omega (arith, ap remaining e, fewer);
  still_begun = begun ∙ sym (ap begun_by e);
  still_told = refl;
  as_shut = refl;
}

stays : (w : Worker) (s : Stage) → w.stage ≡ s → remaining s ≡ 0 → Nearer w w
stays w s e over = record {
  closer = omega (arith, ap remaining e, over);
  still_begun = refl;
  still_told = refl;
  as_shut = refl;
}

thread_step_at-Nearer :
    (s : Stage) (w : Worker)
    → w.stage ≡ s
    → 0 < w.signal_thread_to_exit
    → Nearer w (or_stays w (thread_step_at s w))
unfolding thread_step_at
thread_step_at-Nearer no_thread w e told = stays w no_thread e refl
thread_step_at-Nearer polling w e told = advances w working polling _ _ _ e (omega arith) refl
thread_step_at-Nearer working w e told = advances w completing working _ _ _ e (omega arith) refl
thread_step_at-Nearer completing w e told =
    advances w waiting_exit completing _ _ _ e (omega arith) refl
thread_step_at-Nearer waiting_exit w e told =
    rw (lt→ltb 0 w.signal_thread_to_exit told)
      (advances w shutting_down waiting_exit _ _ _ e (omega arith) refl)
thread_step_at-Nearer shutting_down w e told =
    advances w leaving shutting_down _ _ _ e (omega arith) refl
thread_step_at-Nearer leaving w e told = advances w ended leaving _ _ _ e (omega arith) refl
thread_step_at-Nearer ended w e told = stays w ended e refl

none_remaining : (s : Stage) → remaining s ≤ 0 → begun_by s ≡ 1 → s ≡ ended
none_remaining no_thread few begun = absurd (omega (arith, begun))
none_remaining polling few begun = absurd (omega (arith, few))
none_remaining working few begun = absurd (omega (arith, few))
none_remaining completing few begun = absurd (omega (arith, few))
none_remaining waiting_exit few begun = absurd (omega (arith, few))
none_remaining shutting_down few begun = absurd (omega (arith, few))
none_remaining leaving few begun = absurd (omega (arith, few))
none_remaining ended few begun = refl

run_thread-ends :
    (n : ℕ) (w : Worker)
    → remaining w.stage ≤ n
    → begun_by w.stage ≡ 1
    → 0 < w.signal_thread_to_exit
    → ((run_thread n w).stage ≡ ended) × ((run_thread n w).shutdown ≡ w.shutdown)
run_thread-ends zero w few begun told = (none_remaining w.stage few begun, refl)
run_thread-ends (suc n) w few begun told =
    let v : Nearer w (or_stays w (thread_step w)) = thread_step_at-Nearer w.stage w refl told in
    let rest =
      run_thread-ends n (or_stays w (thread_step w)) (omega (arith, v.closer, few))
        (v.still_begun ∙ begun) (omega (arith, v.still_told, told)) in
    (rest.0, rest.1 ∙ v.as_shut)

at_most_six : (s : Stage) → remaining s ≤ 6
at_most_six no_thread = omega arith
at_most_six polling = omega arith
at_most_six working = omega arith
at_most_six completing = omega arith
at_most_six waiting_exit = omega arith
at_most_six shutting_down = omega arith
at_most_six leaving = omega arith
at_most_six ended = omega arith

told_to_exit :
    (w : Worker) (b : Bool)
    → w.exit_signaled ≡ b
    → Lived w
    → (0 < (initiate_shutdown w).signal_thread_to_exit)
      × ((initiate_shutdown w).shutdown ≡ true)
      × ((initiate_shutdown w).stage ≡ w.stage)
unfolding initiate_shutdown
told_to_exit w true e l = rw (e) (omega (arith, l.signalled, ap one_if e), refl, refl)
told_to_exit w false e l = rw (e) (omega arith, refl, refl)

let_go_if :
    (v : Worker) (b c : Bool)
    → c ≡ true
    → v.joinable ≡ b
    → v.shutdown ≡ true
    → destroys (
        or_stays v
          (if b then (if c then some (record v { joinable = false }) else none) else some v))
      ≡ true
unfolding destroys
let_go_if v true true over held shut = rw (shut) refl
let_go_if v true false over held shut = ground arith
let_go_if v false c over loose shut = rw (shut, loose) refl

let_go : (v : Worker) → v.stage ≡ ended → v.shutdown ≡ true → destroys (or_stays v (join v)) ≡ true
unfolding join
let_go v over shut = let_go_if v v.joinable (has_ended v.stage) (ap has_ended over) refl shut

-- A worker that was started ends when it is shut down, whatever its owner and its thread did
-- before: after shutdown() signals, its thread has ended within six steps of its own, so that
-- join() returns, and the worker may be destroyed.
pub shutdown-ends :
    (w : Worker)
    → Reaches new_worker w
    → w.started ≡ true
    → let v = run_thread 6 (initiate_shutdown w) in
      (v.stage ≡ ended) × (destroys (or_stays v (join v)) ≡ true)
shutdown-ends w life begun =
    let l = Reaches-Lived new-Lived life in
    let told = told_to_exit w w.exit_signaled refl l in
    let first : begun_by (initiate_shutdown w).stage ≡ 1 =
      ap begun_by told.2 ∙ sym l.begun ∙ ap one_if begun in
    let run =
      run_thread-ends 6 (initiate_shutdown w) (at_most_six (initiate_shutdown w).stage) first
        told.0 in
    (run.0, let_go (run_thread 6 (initiate_shutdown w)) run.0 (run.1 ∙ told.1))
