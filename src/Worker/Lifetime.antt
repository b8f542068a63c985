-- ===== src/Worker/Lifetime.antt =====
-- A worker over any interleaving of its two threads (engine/source/common/worker_impl.cc).
use sortie.Worker.Steps.{
  thread_step_at-Lived, wait-Lived, ended_by, join-Lived, begun_by, works_by,
  initiate_shutdown-Lived, completes_by, start-Lived, at_most_one_ended, signals_by, shutdowns_by,
  gives, Lived,
}
use sortie.Prelude.{
  ◌+◌, ◌-◌, ◌≤◌, ◌≡◌, refl, ◌⊎◌, inl, inr, Bool, true, false, not, ◌&&◌, arith, Bool-cases, one_if,
}
use sortie.Worker.{
  Reaches, Stage, Worker, completing, destroys, ended, here, join, joins, leaving, new_worker,
  no_thread, polling, runs, shutting_down, signals, start, starts, thread_step_at,
  wait_for_completion, waiting_exit, waits, working,
}

pub Reaches-Lived : {u w : Worker} → Lived u → Reaches u w → Lived w
Reaches-Lived l here = l
Reaches-Lived {u = u} l (starts {v = v} e rest) =
    Reaches-Lived (gives u v (start u) (start-Lived u l) e) rest
Reaches-Lived {u = u} l (signals rest) = Reaches-Lived (initiate_shutdown-Lived u l) rest
Reaches-Lived {u = u} l (joins {v = v} e rest) =
    Reaches-Lived (gives u v (join u) (join-Lived u l) e) rest
Reaches-Lived {u = u} l (waits {v = v} e rest) =
    Reaches-Lived (gives u v (wait_for_completion u) (wait-Lived u l) e) rest
Reaches-Lived {u = u} l (runs {v = v} e rest) =
    Reaches-Lived (gives u v (thread_step_at u.stage u) (thread_step_at-Lived u.stage u refl l) e)
      rest

pub new-Lived : Lived new_worker
new-Lived = record {
  begun = refl;
  worked = refl;
  completed = refl;
  shut_down = refl;
  signalled = refl;
  allowed = omega arith;
  held = omega arith;
}

-- What has happened by a stage, in its order.
stages_in_order :
    (s : Stage)
    → (shutdowns_by s ≤ signals_by s)
      × (signals_by s ≤ completes_by s)
      × (completes_by s ≤ works_by s)
      × (works_by s ≤ begun_by s)
      × (begun_by s ≤ 1)
      × (begun_by s ≤ shutdowns_by s + (1 - ended_by s))
stages_in_order no_thread = omega arith
stages_in_order polling = omega arith
stages_in_order working = omega arith
stages_in_order completing = omega arith
stages_in_order waiting_exit = omega arith
stages_in_order shutting_down = omega arith
stages_in_order leaving = omega arith
stages_in_order ended = omega arith

not_joinable : (a b : Bool) → a && not b ≡ true → one_if b ≡ 0
not_joinable true true e = ground arith
not_joinable true false e = refl
not_joinable false b e = ground arith

-- A worker after any interleaving of its owner's calls and of its own thread: neither promise was
-- set twice, the work was done at most once and before it was called complete, the thread was shut
-- down at most once, and not before the work was complete and the exit signaled. A worker that may
-- be destroyed has been shut down if it was started, after its work.
pub Reaches-in_order :
    (w : Worker)
    → Reaches new_worker w
    → (w.signal_thread_to_exit ≤ 1)
      × (w.works ≤ 1)
      × (w.complete ≤ w.works)
      × (w.shutdowns ≤ w.complete)
      × (w.shutdowns ≤ w.signal_thread_to_exit)
      × ((destroys w ≡ false) ⊎ (w.shutdowns ≡ one_if w.started))
unfolding destroys
Reaches-in_order w life =
    let l = Reaches-Lived new-Lived life in
    let s = stages_in_order w.stage in
    let once : one_if w.exit_signaled ≤ 1 = at_most_one_ended w.exit_signaled false in
    (
      omega (arith, l.signalled, once),
      omega (arith, l.worked, s.3, s.4),
      omega (arith, l.completed, l.worked, s.2),
      omega (arith, l.completed, l.shut_down, s.0, s.1),
      omega (arith, l.shut_down, l.allowed, s.0),
      elim (Bool-cases (w.shutdown && not w.joinable)) [
        | inr kept ↦ inl kept
        | inl free ↦
            let loose = not_joinable w.shutdown w.joinable free in
            inr (omega (arith, l.begun, l.shut_down, l.held, loose, s.0, s.1, s.2, s.3, s.4, s.5))
      ],
    )
