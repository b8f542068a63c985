-- ===== src/Termination/Examples.antt =====
-- A duration and two counters in one chain, and the theorems applied to it.

use sortie.Termination.Verdict.{evaluate_chain-first_verdict, in_order, first_verdict}
use sortie.Termination.{
  last, terminate, fail, linked, counter_threshold, duration, evaluate_chain, Chain, Predicate,
  World,
}
use sortie.Prelude.{◌*◌, ◌≡◌, refl}

abbrev at_six_seconds : World
at_six_seconds = record { monotonic = 6_000_000_000; counters = λ c. c * 2 }

abbrev five_seconds : Predicate
five_seconds = duration 500_000_000 5_000_000

abbrev failures : Predicate
failures = counter_threshold 4 7 fail

abbrev cancelled : Predicate
cancelled = counter_threshold 0 0 terminate

abbrev watched : Chain
watched = linked five_seconds (linked failures (last cancelled))

evaluate_chain-first_verdict_example :
    evaluate_chain at_six_seconds watched ≡ first_verdict at_six_seconds (in_order watched)
evaluate_chain-first_verdict_example = evaluate_chain-first_verdict at_six_seconds watched

counter_wins : evaluate_chain at_six_seconds watched ≡ fail
unfolding evaluate_chain
counter_wins = refl
