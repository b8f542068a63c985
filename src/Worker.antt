-- ===== src/Worker.antt =====
-- The life of a worker and its thread (engine/source/common/worker_impl.{h,cc}): what the thread
-- that owns the worker and the worker's own thread do, one step at a time.

-- How far the worker's own thread is.
mod Examples
pub mod Ending
pub mod Lifetime
pub mod Snapshot
pub mod Steps
use sortie.Prelude.{
  ℕ, ◌+◌, ◌≡◌, Bool, true, false, not, ◌&&◌, Option, none, some, ltb, if◌then◌else◌,
}

pub data Stage : Type 0 where
  no_thread : Stage
  polling : Stage
  working : Stage
  completing : Stage
  waiting_exit : Stage
  shutting_down : Stage
  leaving : Stage
  ended : Stage

-- WorkerImpl. Each promise counts how often it was set, where setting it twice throws; `works` and
-- `shutdowns` count the calls of work() and shutdownThread(), which the code does not keep.
pub record Worker : Type 0 where
  pub started : Bool
  pub complete : ℕ
  pub signal_thread_to_exit : ℕ
  pub exit_signaled : Bool
  pub complete_retrieved : Bool
  pub shutdown : Bool
  pub stage : Stage
  pub joinable : Bool
  pub works : ℕ
  pub shutdowns : ℕ

abbrev pub new_worker : Worker
new_worker = record {
  started = false;
  complete = 0;
  signal_thread_to_exit = 0;
  exit_signaled = false;
  complete_retrieved = false;
  shutdown = true;
  stage = no_thread;
  joinable = false;
  works = 0;
  shutdowns = 0;
}

-- start(); none is a failed assertion.
unfoldable pub start : Worker → Option Worker
start w =
    if w.started
    then none
    else some (record w { started = true; shutdown = false; stage = polling; joinable = true })

unfoldable pub initiate_shutdown : Worker → Worker
initiate_shutdown w = if w.exit_signaled then record w { shutdown = true } else record w {
  shutdown = true;
  exit_signaled = true;
  signal_thread_to_exit = w.signal_thread_to_exit + 1;
}

abbrev pub has_ended : Stage → Bool
has_ended ended = true
has_ended _ = false

-- The rest of shutdown(); none is that join() has to wait.
unfoldable pub join : Worker → Option Worker
join w =
    if w.joinable
    then (if has_ended w.stage then some (record w { joinable = false }) else none)
    else some w

-- waitForCompletion(); none is that it has to wait, or that get_future() throws, as it does when it
-- is called again.
unfoldable pub wait_for_completion : Worker → Option Worker
wait_for_completion w =
    if ltb 0 w.complete && not w.complete_retrieved
    then some (record w { complete_retrieved = true })
    else none

-- The next step of the worker's own thread, by how far it is; none is that there is none, or that
-- it has to wait.
unfoldable pub thread_step_at : Stage → Worker → Option Worker
thread_step_at no_thread w = none
thread_step_at polling w = some (record w { stage = working })
thread_step_at working w = some (record w { stage = completing; works = w.works + 1 })
thread_step_at completing w = some (record w { stage = waiting_exit; complete = w.complete + 1 })
thread_step_at waiting_exit w =
    if ltb 0 w.signal_thread_to_exit then some (record w { stage = shutting_down }) else none
thread_step_at shutting_down w = some (record w { stage = leaving; shutdowns = w.shutdowns + 1 })
thread_step_at leaving w = some (record w { stage = ended })
thread_step_at ended w = none

abbrev pub thread_step : Worker → Option Worker
thread_step w = thread_step_at w.stage w

-- The destructor's assertion, and that of std::thread, which terminates when it is joinable.
unfoldable pub destroys : Worker → Bool
destroys w = w.shutdown && not w.joinable

-- Any interleaving of the two threads.
pub data Reaches : Worker → Worker → Type 0 where
  here : {w : Worker} → Reaches w w
  starts : {u v w : Worker} → start u ≡ some v → Reaches v w → Reaches u w
  signals : {u w : Worker} → Reaches (initiate_shutdown u) w → Reaches u w
  joins : {u v w : Worker} → join u ≡ some v → Reaches v w → Reaches u w
  waits : {u v w : Worker} → wait_for_completion u ≡ some v → Reaches v w → Reaches u w
  runs : {u v w : Worker} → thread_step u ≡ some v → Reaches v w → Reaches u w
