-- ===== src/Worker/Steps.antt =====
-- What holds of a worker after each step of its owner or of its own thread
-- (engine/source/common/worker_impl.cc).
use sortie.Prelude.{
  ltb→lt, ℕ, ◌+◌, ◌≤◌, ◌≡◌, refl, sym, ap, ◌∙◌, Bool, true, false, not, ◌&&◌, Option, none, some,
  arith, ltb, if◌then◌else◌, one_if,
}
use mathlib.Core.Path.{subst}
use sortie.Worker.{
  completing, thread_step_at, working, ended, polling, leaving, shutting_down, waiting_exit,
  no_thread, has_ended, wait_for_completion, join, initiate_shutdown, start, Worker, Stage,
}

abbrev pub begun_by : Stage → ℕ
begun_by no_thread = 0
begun_by _ = 1

abbrev pub works_by : Stage → ℕ
works_by no_thread = 0
works_by polling = 0
works_by working = 0
works_by _ = 1

abbrev pub completes_by : Stage → ℕ
completes_by waiting_exit = 1
completes_by shutting_down = 1
completes_by leaving = 1
completes_by ended = 1
completes_by _ = 0

abbrev pub signals_by : Stage → ℕ
signals_by shutting_down = 1
signals_by leaving = 1
signals_by ended = 1
signals_by _ = 0

abbrev pub shutdowns_by : Stage → ℕ
shutdowns_by leaving = 1
shutdowns_by ended = 1
shutdowns_by _ = 0

abbrev pub ended_by : Stage → ℕ
ended_by s = one_if (has_ended s)

-- The invariant, of what it reads of a worker.
pub record LivedOf (started joinable signaled : Bool) (stage : Stage)
    (works complete shutdowns signal : ℕ) : Type 0 where
  pub begun : one_if started ≡ begun_by stage
  pub worked : works ≡ works_by stage
  pub completed : complete ≡ completes_by stage
  pub shut_down : shutdowns ≡ shutdowns_by stage
  pub signalled : signal ≡ one_if signaled
  pub allowed : signals_by stage ≤ signal
  pub held : one_if started ≤ one_if joinable + ended_by stage

abbrev pub Lived : Worker → Type 0
Lived w =
    LivedOf w.started w.joinable w.exit_signaled w.stage w.works w.complete w.shutdowns
      w.signal_thread_to_exit

abbrev pub or_stays : Worker → Option Worker → Worker
or_stays w none = w
or_stays w (some v) = v

-- A step that gives `v` is what the step gives.
pub gives : (u v : Worker) (r : Option Worker) → Lived (or_stays u r) → r ≡ some v → Lived v
gives u v r l e = subst (λ r'. Lived (or_stays u r')) e l

if-Lived :
    (w : Worker) (b : Bool) (x y : Option Worker)
    → (b ≡ true → Lived (or_stays w x))
    → (b ≡ false → Lived (or_stays w y))
    → Lived (or_stays w (if b then x else y))
if-Lived w true x y holds fails = holds refl
if-Lived w false x y holds fails = fails refl

not_begun : (s : Stage) → begun_by s ≡ 0 → s ≡ no_thread
not_begun no_thread e = refl
not_begun polling e = ground arith
not_begun working e = ground arith
not_begun completing e = ground arith
not_begun waiting_exit e = ground arith
not_begun shutting_down e = ground arith
not_begun leaving e = ground arith
not_begun ended e = ground arith

pub start-Lived : (w : Worker) → Lived w → Lived (or_stays w (start w))
unfolding start
start-Lived w l =
    if-Lived w w.started _ _ (λ _. l)
      (λ fresh.
        let none_yet = not_begun w.stage (sym l.begun ∙ ap one_if fresh) in
        record {
          begun = refl;
          worked = l.worked ∙ ap works_by none_yet;
          completed = l.completed ∙ ap completes_by none_yet;
          shut_down = l.shut_down ∙ ap shutdowns_by none_yet;
          signalled = l.signalled;
          allowed = omega arith;
          held = omega arith;
        })

signalling-Lived :
    (x y : Worker) (b : Bool)
    → (b ≡ true → Lived x)
    → (b ≡ false → Lived y)
    → Lived (if b then x else y)
signalling-Lived x y true holds fails = holds refl
signalling-Lived x y false holds fails = fails refl

pub initiate_shutdown-Lived : (w : Worker) → Lived w → Lived (initiate_shutdown w)
unfolding initiate_shutdown
initiate_shutdown-Lived w l =
    signalling-Lived _ _ w.exit_signaled
      (λ again. record {
        begun = l.begun;
        worked = l.worked;
        completed = l.completed;
        shut_down = l.shut_down;
        signalled = l.signalled;
        allowed = l.allowed;
        held = l.held;
      })
      (λ first. record {
        begun = l.begun;
        worked = l.worked;
        completed = l.completed;
        shut_down = l.shut_down;
        signalled = omega (arith, l.signalled, ap one_if first);
        allowed = omega (arith, l.allowed);
        held = l.held;
      })

at_most_one : (b c : Bool) → c ≡ true → one_if b ≤ 0 + one_if c
at_most_one true c e = omega (arith, ap one_if e)
at_most_one false c e = omega arith

pub join-Lived : (w : Worker) → Lived w → Lived (or_stays w (join w))
unfolding join
join-Lived w l =
    if-Lived w w.joinable _ _
      (λ _.
        if-Lived w (has_ended w.stage) _ _
          (λ over. record {
            begun = l.begun;
            worked = l.worked;
            completed = l.completed;
            shut_down = l.shut_down;
            signalled = l.signalled;
            allowed = l.allowed;
            held = at_most_one w.started (has_ended w.stage) over;
          })
          (λ _. l))
      (λ _. l)

pub wait-Lived : (w : Worker) → Lived w → Lived (or_stays w (wait_for_completion w))
unfolding wait_for_completion
wait-Lived w l = if-Lived w (ltb 0 w.complete && not w.complete_retrieved) _ _ (λ _. l) (λ _. l)

pub at_most_one_ended : (b c : Bool) → one_if b ≤ one_if c + 1
at_most_one_ended true c = omega arith
at_most_one_ended false c = omega arith

pub thread_step_at-Lived :
    (s : Stage) (w : Worker) → w.stage ≡ s → Lived w → Lived (or_stays w (thread_step_at s w))
unfolding thread_step_at
thread_step_at-Lived no_thread w e l = l
thread_step_at-Lived polling w e l = record {
  begun = l.begun ∙ ap begun_by e;
  worked = l.worked ∙ ap works_by e;
  completed = l.completed ∙ ap completes_by e;
  shut_down = l.shut_down ∙ ap shutdowns_by e;
  signalled = l.signalled;
  allowed = omega arith;
  held = omega (arith, l.held, ap ended_by e);
}
thread_step_at-Lived working w e l = record {
  begun = l.begun ∙ ap begun_by e;
  worked = omega (arith, l.worked, ap works_by e);
  completed = l.completed ∙ ap completes_by e;
  shut_down = l.shut_down ∙ ap shutdowns_by e;
  signalled = l.signalled;
  allowed = omega arith;
  held = omega (arith, l.held, ap ended_by e);
}
thread_step_at-Lived completing w e l = record {
  begun = l.begun ∙ ap begun_by e;
  worked = l.worked ∙ ap works_by e;
  completed = omega (arith, l.completed, ap completes_by e);
  shut_down = l.shut_down ∙ ap shutdowns_by e;
  signalled = l.signalled;
  allowed = omega arith;
  held = omega (arith, l.held, ap ended_by e);
}
thread_step_at-Lived waiting_exit w e l =
    if-Lived w (ltb 0 w.signal_thread_to_exit) _ _
      (λ signal. record {
        begun = l.begun ∙ ap begun_by e;
        worked = l.worked ∙ ap works_by e;
        completed = l.completed ∙ ap completes_by e;
        shut_down = l.shut_down ∙ ap shutdowns_by e;
        signalled = l.signalled;
        allowed = ltb→lt 0 w.signal_thread_to_exit signal;
        held = omega (arith, l.held, ap ended_by e);
      })
      (λ _. l)
thread_step_at-Lived shutting_down w e l = record {
  begun = l.begun ∙ ap begun_by e;
  worked = l.worked ∙ ap works_by e;
  completed = l.completed ∙ ap completes_by e;
  shut_down = omega (arith, l.shut_down, ap shutdowns_by e);
  signalled = l.signalled;
  allowed = omega (arith, l.allowed, ap signals_by e);
  held = omega (arith, l.held, ap ended_by e);
}
thread_step_at-Lived leaving w e l = record {
  begun = l.begun ∙ ap begun_by e;
  worked = l.worked ∙ ap works_by e;
  completed = l.completed ∙ ap completes_by e;
  shut_down = l.shut_down ∙ ap shutdowns_by e;
  signalled = l.signalled;
  allowed = omega (arith, l.allowed, ap signals_by e);
  held = at_most_one_ended w.started w.joinable;
}
thread_step_at-Lived ended w e l = l
