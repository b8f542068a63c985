-- ===== src/Termination.antt =====
-- engine/source/common/termination_predicate_impl.{h,cc} over the interface of
-- engine/include/nighthawk/common/termination_predicate.h.
pub mod Verdict
mod Examples
use sortie.Prelude.{
  ℕ, suc, ◌-◌, ◌*◌, Bool, true, false, Option, none, some, List, [], ◌∷◌, ltb, if◌then◌else◌,
}
use sortie.RateLimiter.{Outcome, done, aborts}

pub data Status : Type 0 where
  proceed terminate fail : Status

abbrev pub is_proceed : Status → Bool
is_proceed proceed = true
is_proceed _ = false

-- What the predicates read: the monotonic clock in nanoseconds, and the counters of the store.
pub record World : Type 0 where
  pub monotonic : ℕ
  pub counters : ℕ → ℕ

-- The two kinds of predicate; a duration is in microseconds, a counter is named by a number.
pub data Predicate : Type 0 where
  duration : ℕ → ℕ → Predicate
  counter_threshold : ℕ → ℕ → Status → Predicate

unfoldable pub evaluate : World → Predicate → Status
evaluate w (duration start limit) =
    if ltb (limit * 1000) (w.monotonic - start) then terminate else proceed
evaluate w (counter_threshold counter counter_limit termination_status) =
    if ltb counter_limit (w.counters counter) then termination_status else proceed

-- A predicate with its linked child, that child with its own, and so on.
pub data Chain : Type 0 where
  last : Predicate → Chain
  linked : Predicate → Chain → Chain

-- link() is allowed once for each predicate.
unfoldable pub link : Chain → Chain → Outcome Chain
link (last p) child = done (linked p child)
link (linked p c) child = aborts

unfoldable pub append_to_chain : Chain → Chain → Chain
append_to_chain (last p) child = linked p child
append_to_chain (linked p c) child = linked p (append_to_chain c child)

-- A linked child is evaluated first; the predicate itself only if that says PROCEED.
unfoldable pub evaluate_chain : World → Chain → Status
unfolding evaluate
evaluate_chain w (last p) = evaluate w p
evaluate_chain w (linked p c) =
    let status = evaluate_chain w c in if is_proceed status then evaluate w p else status
