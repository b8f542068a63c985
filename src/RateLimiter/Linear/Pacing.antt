-- ===== src/RateLimiter/Linear/Pacing.antt =====
-- A LinearRateLimiter (engine/source/common/rate_limiter_impl.cc) fills the interface of a pacer.
use sortie.Prelude.Double.{Ops}
use sortie.RateLimiter.{Outcome, Now, done}
use sortie.RateLimiter.Base.{elapsed}
use sortie.RateLimiter.Pacer.{Pacer}
use sortie.RateLimiter.Linear.{Linear, due, try_acquire_one, release_one, limiter}
use sortie.RateLimiter.Linear.Pace.{Inv}
use sortie.Prelude.{ℕ, ◌≡◌, ◌<◌, ◌+◌, ◌-◌, true, false, arith, refl}

module _ (d : Ops) (hertz start : ℕ) where
  abbrev pub Ok : Now → Linear → Type 0
  Ok now l = Inv d hertz start (now.monotonic - start) l

  pub grants :
      (now : Now) (l : Linear)
      → Ok now l
      → (try_acquire_one d now l).1 ≡ true
      → Ok now (try_acquire_one d now l).0
        × ((try_acquire_one d now l).0.acquired_count ≡ l.acquired_count + 1)
  unfolding try_acquire_one elapsed
  grants now l v t = (ground arith, ground arith)

  pub refuses :
      (now : Now) (l : Linear)
      → Ok now l
      → (try_acquire_one d now l).1 ≡ false
      → Ok now (try_acquire_one d now l).0
        × ((try_acquire_one d now l).0.acquired_count ≡ l.acquired_count)
  unfolding try_acquire_one elapsed
  refuses now l v t = (ground arith, ground arith)

  pub returns :
      (now : Now) (l : Linear)
      → Ok now l
      → 0 < l.acquired_count
      → (l' : Linear) × (◌≡◌ {A = Outcome Linear} (done (release_one l)) (done l'))
        × Ok now l'
        × (l'.acquired_count + 1 ≡ l.acquired_count)
  unfolding release_one
  returns now l v h = (release_one l, refl, ground arith, ground arith)

  abbrev pub linear_pacer : Pacer (limiter d)
  linear_pacer = record {
    Ok = Ok;
    acquired = λ l. l.acquired_count;
    limit = λ now. due d hertz (now.monotonic - start);
    bounded = λ now l v. omega (arith, v.paced);
    grants = grants;
    refuses = refuses;
    returns = returns;
  }
