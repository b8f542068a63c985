-- ===== src/RateLimiter/Pacer.antt =====
-- What a user of a rate limiter (engine/include/nighthawk/common/rate_limiter.h) relies on for the
-- pace: a count of what was let through, which a success raises by one and releaseOne() lowers by
-- one, and which never passes a limit that depends on the time alone.
use sortie.RateLimiter.{Now, Limiter, done}
use sortie.Prelude.{ℕ, ◌≤◌, ◌<◌, ◌≡◌, ◌+◌, true, false}

pub record Pacer {S : Type 0} (l : Limiter S) : Type 1 where
  pub Ok : Now → S → Type 0
  pub acquired : S → ℕ
  pub limit : Now → ℕ
  pub bounded : (now : Now) (s : S) → Ok now s → acquired s ≤ limit now
  pub grants :
      (now : Now) (s : S)
      → Ok now s
      → (l.try_acquire_one now s).1 ≡ true
      → Ok now (l.try_acquire_one now s).0 × (acquired (l.try_acquire_one now s).0 ≡ acquired s + 1)
  pub refuses :
      (now : Now) (s : S)
      → Ok now s
      → (l.try_acquire_one now s).1 ≡ false
      → Ok now (l.try_acquire_one now s).0 × (acquired (l.try_acquire_one now s).0 ≡ acquired s)
  pub returns :
      (now : Now) (s : S)
      → Ok now s
      → 0 < acquired s
      → (s' : S) × (l.release_one now s ≡ done s') × Ok now s' × (acquired s' + 1 ≡ acquired s)
