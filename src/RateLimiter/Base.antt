-- ===== src/RateLimiter/Base.antt =====
-- RateLimiterBaseImpl (engine/source/common/rate_limiter_impl.h): the clock of a limiter that
-- starts at the first acquisition.
use sortie.Prelude.{ℕ, ◌-◌, Bool, true, false, Option, none, some}
use sortie.RateLimiter.{Now}

pub record Base : Type 0 where
  pub start_time : Option ℕ
  pub first_acquisition_time : Option ℕ

abbrev pub unstarted : Base
unstarted = record { start_time = none; first_acquisition_time = none }

-- The monotonic clock does not go back, so `-` is exact.
unfoldable pub elapsed : Now → Base → Base × ℕ
elapsed now b = elim b.start_time [
  | none ↦ (record { start_time = some now.monotonic; first_acquisition_time = some now.system }, 0)
  | some start ↦ (b, now.monotonic - start)
]

unfoldable pub started : Base → Bool
started b = elim b.start_time [ none ↦ false | some _ ↦ true ]
