-- ===== src/Worker/Examples.antt =====
-- A run of a worker at which its theorems apply.
use sortie.Worker.Snapshot.Kept.{last_own}
use sortie.Worker.Snapshot.Scopes.{snapshot-own, scope_prefix}
use sortie.Worker.Snapshot.{
  assign, starts_with, strip_prefix, own_name, keep_own, value_of, snapshot, cluster_prefix,
}
use sortie.Prelude.{ℕ, ◌≤◌, ◌≡◌, refl, ◌⊎◌, true, false, none, some, List, [], ◌∷◌, ◌++◌, arith}
use sortie.Worker.Steps.{or_stays}
use sortie.Worker.Lifetime.{Reaches-in_order}
use sortie.Worker.Ending.{shutdown-ends, run_thread}
use sortie.Worker.{
  join, Reaches, ended, thread_step_at, initiate_shutdown, new_worker, wait_for_completion,
  destroys, start, Worker, completing, here, starts, runs, signals,
}

-- Started, told to exit at once, and half through its work.
abbrev busy : Worker
busy = record new_worker {
  started = true;
  joinable = true;
  exit_signaled = true;
  signal_thread_to_exit = 1;
  stage = completing;
  works = 1;
}

busy_life : Reaches new_worker busy
unfolding start initiate_shutdown thread_step_at
busy_life = starts refl (runs refl (signals (runs refl here)))

Reaches-in_order_example :
    (1 ≤ 1)
    × (1 ≤ 1)
    × (0 ≤ 1)
    × (0 ≤ 0)
    × (0 ≤ 1)
    × ((destroys busy ≡ false) ⊎ (busy.shutdowns ≡ 1))
Reaches-in_order_example = Reaches-in_order busy busy_life

shutdown-ends_example :
    ((run_thread 6 (initiate_shutdown busy)).stage ≡ ended)
    × (destroys (
          or_stays
            (run_thread 6 (initiate_shutdown busy))
            (join (run_thread 6 (initiate_shutdown busy))))
        ≡ true)
shutdown-ends_example = shutdown-ends busy busy_life refl

-- Completion may be waited for once.
waits_once :
    (wait_for_completion (record busy { complete = 1 })
      ≡ some (record busy { complete = 1; complete_retrieved = true }))
    × (wait_for_completion (record busy { complete = 1; complete_retrieved = true }) ≡ none)
    × (wait_for_completion busy ≡ none)
unfolding wait_for_completion
waits_once = (refl, refl, refl)

-- Workers 1 and 11 ("1" is 49): each has a counter "a" (97), and the former a "b" (98) that is 0.
abbrev counters : List (List ℕ × ℕ)
counters =
    (cluster_prefix ++ 49 ∷ 46 ∷ 97 ∷ [], 5)
    ∷ (cluster_prefix ++ 49 ∷ 49 ∷ 46 ∷ 97 ∷ [], 7)
    ∷ (cluster_prefix ++ 49 ∷ 46 ∷ 98 ∷ [], 0)
    ∷ []

kept_counters : snapshot (scope_prefix (49 ∷ [])) counters [] ≡ (97 ∷ [], 5) ∷ []
unfolding snapshot keep_own own_name strip_prefix starts_with assign
kept_counters = refl

snapshot-own_example :
    (value_of (97 ∷ []) (snapshot (scope_prefix (49 ∷ [])) counters [])
      ≡ last_own (scope_prefix (49 ∷ [])) (97 ∷ []) counters 0)
    × (own_name (scope_prefix (49 ∷ [])) (cluster_prefix ++ 49 ∷ 46 ∷ 97 ∷ []) ≡ some (97 ∷ []))
    × (own_name (scope_prefix (49 ∷ [])) (cluster_prefix ++ 49 ∷ 49 ∷ 46 ∷ 97 ∷ []) ≡ none)
snapshot-own_example =
    snapshot-own 49 [] 49 (49 ∷ []) (97 ∷ []) counters (λ e. ground (arith, e))
      (λ e. ground (arith, e)) (λ e. ground (arith, e), tt)
      (λ e. ground (arith, e), (λ e. ground (arith, e), tt)) refl
