-- ===== src/RateLimiter/Bursting/Invariant.antt =====
-- The state of a BurstingRateLimiter between two calls, and its loop
-- (engine/source/common/rate_limiter_impl.cc).
use mathlib.Core.Path.{subst}
use native.Mathlib.Decide.{dec_lt}
use native.Mathlib.Nat.{mod-eq_of_lt, mod_self}
use sortie.Prelude.{
  sym, ◌∙◌, ap, ltb, ℕ, zero, suc, ◌+◌, ◌%◌, ◌≤◌, ◌<◌, ◌≡◌, refl, ◌⊎◌, inl, inr, Bool, true, false,
  Option, none, some, arith,
}
use sortie.Prelude.Words.{sub64, u64_mod, add64}
use sortie.RateLimiter.{Now, done, Limiter}
use sortie.RateLimiter.Bursting.{Bursting, drain_one, accumulate, try_acquire_one, release_one}

-- Less than a burst is accumulated unless one is being released, and then something is left.
pub record Inv {S : Type 0} (b : Bursting S) : Type 0 where
  pub positive : 0 < b.burst_size
  pub fits : b.burst_size < u64_mod
  pub at_most : b.accumulated ≤ b.burst_size
  pub collecting : b.releasing ≡ false → b.accumulated < b.burst_size
  pub handing_out : b.releasing ≡ true → 0 < b.accumulated

-- What a call of tryAcquireOne() returns.
abbrev pub Returns :
    {S : Type 0} → (Bursting S × Bool → Type 0) → Option (Bursting S × Bool) → Type 0
Returns P none = ⊥
Returns P (some r) = P r

-- A complete burst is the only multiple of its size that the counter meets.
pub multiple_of_size :
    (total size : ℕ)
    → 0 < total
    → total ≤ size
    → ((total < size) × (total % size ≡ total)) ⊎ ((total ≡ size) × (total % size ≡ 0))
multiple_of_size total size h k = elim (dec_lt total size) [
  | yes p ↦ inl (p, mod-eq_of_lt p)
  | no p ↦ let e : total ≡ size = omega arith in inr (e, rw e (mod_self size))
]

-- After a call: the invariant, and after a success also what releaseOne() asserts.
pub record After {S : Type 0} (b : Bursting S) (r : Bursting S × Bool) : Type 0 where
  pub inv : Inv r.0
  pub same_size : r.0.burst_size ≡ b.burst_size
  pub releasable :
      r.1 ≡ true → (r.0.accumulated < r.0.burst_size) × (r.0.previously_releasing ≡ some true)
  pub drained : r.1 ≡ true → r.0.releasing ≡ ltb 0 r.0.accumulated

drain_one-After : {S : Type 0} (b : Bursting S) → Inv b → b.releasing ≡ true → After b (drain_one b)
unfolding drain_one
drain_one-After b v r = ground arith

module _ {S : Type 0} (l : Limiter S) where
  accumulate-After :
      (fuel : ℕ) (now : Now) (b : Bursting S)
      → Inv b
      → b.releasing ≡ false
      → b.burst_size ≤ b.accumulated + fuel
      → Returns (After b) (accumulate l fuel now b)
  unfolding accumulate drain_one
  accumulate-After zero now b v r h = absurd (omega (arith, v.collecting r))
  accumulate-After (suc fuel) now b v r h = ground (
    arith,
    multiple_of_size (b.accumulated + 1) b.burst_size,
    accumulate-After fuel now (record b {
      rate_limiter = (l.try_acquire_one now b.rate_limiter).0;
      accumulated = add64 b.accumulated 1;
    }),
  )

  -- From a state that satisfies the invariant, tryAcquireOne() returns: its loop ends within one
  -- burst. The state satisfies the invariant again, the burst size stays, and after a success
  -- what releaseOne() asserts holds.
  pub try_acquire_one-After :
      (now : Now) (b : Bursting S) → Inv b → Returns (After b) (try_acquire_one l now b)
  unfolding try_acquire_one drain_one
  try_acquire_one-After now b v = ground (
    arith,
    accumulate-After b.burst_size now (record b { previously_releasing = some b.releasing }),
  )

-- Handing back what a call of tryAcquireOne() acquired does not fail and keeps the invariant, and
-- the next call of tryAcquireOne() then acquires again, without asking the wrapped limiter, and
-- leaves the very state that the first one left. The state before satisfies the invariant.
pub release_one_restores :
    {S : Type 0} (l : Limiter S) (b acquired : Bursting S) (now later : Now)
    → Inv b
    → try_acquire_one l now b ≡ some (acquired, true)
    → (c : Bursting S) × (release_one acquired ≡ done c)
      × Inv c
      × (try_acquire_one l later c ≡ some (acquired, true))
unfolding release_one try_acquire_one drain_one
release_one_restores l b acquired now later v got =
    let a : After b (acquired, true) =
      subst (λ r. Returns (After b) r) got (try_acquire_one-After l now b v) in
    let once = a.releasable refl in
    let back : sub64 (add64 acquired.accumulated 1) 1 ≡ acquired.accumulated =
      omega (arith, once.0, a.inv.fits) in
    (
      record acquired {
        accumulated = add64 acquired.accumulated 1;
        releasing = true;
        previously_releasing = none;
      },
      ground (arith, once),
      ground (arith, once, a.inv),
      ap
            (λ left. some (
              record acquired {
                accumulated = left;
                releasing = ltb 0 left;
                previously_releasing = some true;
              },
              true,
            ))
            back
          ∙ ap
              (λ r.
                some (record acquired { releasing = r; previously_releasing = some true }, true))
              (sym (a.drained refl))
          ∙ ap (λ p. some (record acquired { previously_releasing = p }, true)) (sym once.1),
    )
