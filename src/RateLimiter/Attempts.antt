-- ===== src/RateLimiter/Attempts.antt =====
-- Schedules of calls of a rate limiter (engine/include/nighthawk/common/rate_limiter.h).
use sortie.RateLimiter.{Now}
use sortie.Prelude.{ℕ, ◌≤◌, List, [], ◌∷◌, Bool, arith}

-- A schedule of calls: the time of each, and whether the caller uses what it acquires or hands it
-- back with releaseOne(), as the sequencer does when its target has no capacity.
abbrev pub Attempt : Type 0
Attempt = Now × Bool

-- Times that do not go back, from `lo` on.
abbrev pub Ascending : ℕ → List Attempt → Type 0
Ascending lo [] = Unit {0}
Ascending lo ((now, _) ∷ rest) = (lo ≤ now.monotonic) × Ascending now.monotonic rest

abbrev pub last_time : ℕ → List Attempt → ℕ
last_time lo [] = lo
last_time lo ((now, _) ∷ rest) = last_time now.monotonic rest

pub last_time-ge : (lo : ℕ) (ops : List Attempt) → Ascending lo ops → lo ≤ last_time lo ops
last_time-ge lo [] h = omega arith
last_time-ge lo ((now, used) ∷ rest) h = omega (arith, last_time-ge now.monotonic rest h.1)
