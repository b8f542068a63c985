-- ===== src/RateLimiter.antt =====
-- engine/include/nighthawk/common/rate_limiter.h: the interface that every rate limiter
-- implements and every wrapper takes. Its operations are virtual functions of an object, so a
-- limiter is a type of states with a function for each operation.
pub mod Base
pub mod Attempts
pub mod Pacer
pub mod Bursting
pub mod Scheduled
pub mod Delegating
pub mod Filtering
pub mod LowerBound
pub mod Examples
pub mod Linear
pub mod Ramping
use sortie.Prelude.{ℕ, ◌+◌, ◌≤◌, ◌<◌, ◌≡◌, Bool, true, false, Option, some}

-- What the two clocks of a time source read during one call, in nanoseconds. The sequencer's
-- cached time source yields one reading per run, so a call sees one time.
pub record Now : Type 0 where
  pub monotonic : ℕ
  pub system : ℕ

-- The result of an operation that may throw a NighthawkException or fail an assertion.
pub data Outcome {ℓ} (A : Type ℓ) : Type ℓ where
  done : A → Outcome A
  throws : Outcome A
  aborts : Outcome A

abbrev pub map_outcome {ℓ κ} : {A : Type ℓ} {B : Type κ} → (A → B) → Outcome A → Outcome B
map_outcome f (done a) = done (f a)
map_outcome f throws = throws
map_outcome f aborts = aborts

-- The result, or a default where there is none.
abbrev pub outcome_or {ℓ} : {A : Type ℓ} → A → Outcome A → A
outcome_or a (done b) = b
outcome_or a _ = a

pub record Limiter (S : Type 0) : Type 0 where
  pub try_acquire_one : Now → S → S × Bool
  pub release_one : Now → S → Outcome S
  pub elapsed : Now → S → S × ℕ
  pub first_acquisition_time : S → Option ℕ
  pub time_until_next_release : Now → S → Option ℕ

-- The documented contract of timeUntilNextRelease(): its value is a lower bound on the time
-- until tryAcquireOne() can succeed.
abbrev pub IsLowerBound : {S : Type 0} → Limiter S → S → Type 0
IsLowerBound l s =
    (now later : Now) (wait : ℕ)
    → l.time_until_next_release now s ≡ some wait
    → now.monotonic ≤ later.monotonic
    → later.monotonic < now.monotonic + wait
    → (l.try_acquire_one later s).1 ≡ false
