-- ===== src/RateLimiter/Delegating.antt =====
-- DelegatingRateLimiterImpl (engine/source/common/rate_limiter_impl.{h,cc}): every acquisition of
-- the wrapped limiter is put off by a random offset, and let through when that has passed.
pub mod Timings
use sortie.Prelude.{
  ℕ, ◌+◌, ◌-◌, Bool, true, false, Option, none, some, List, [], ◌∷◌, ltb, leb, min, if◌then◌else◌,
}
use sortie.RateLimiter.{Now, Outcome, done, aborts, map_outcome, Limiter}

pub record Delegating (S G : Type 0) : Type 0 where
  pub rate_limiter : S
  pub generator : G
  pub distributed_timings : List ℕ
  pub sanity_check_pending_release : Bool

abbrev pub delegating : {S G : Type 0} → S → G → Delegating S G
delegating s g = record {
  rate_limiter = s;
  generator = g;
  distributed_timings = [];
  sanity_check_pending_release = true;
}

-- insert() at std::upper_bound(): before the first timing that is later.
unfoldable pub insert_timing : ℕ → List ℕ → List ℕ
insert_timing t [] = t ∷ []
insert_timing t (x ∷ xs) = if ltb t x then t ∷ x ∷ xs else x ∷ insert_timing t xs

-- The second half of tryAcquireOne(): the front of the list is let through once it is due.
unfoldable pub release_due : {S G : Type 0} → Now → List ℕ → Delegating S G → Delegating S G × Bool
release_due now [] s = (s, false)
release_due now (t ∷ ts) s =
    if leb t now.monotonic
    then (record s { distributed_timings = ts; sanity_check_pending_release = false }, true)
    else (s, false)

-- max(0, min(queued, wrapped)): `-` on ℕ is the maximum of 0 and the signed difference.
unfoldable pub queued_or_wrapped : Now → List ℕ → ℕ → ℕ
queued_or_wrapped now [] wrapped = wrapped
queued_or_wrapped now (t ∷ ts) wrapped = min (t - now.monotonic) wrapped

-- `random_distribution_generator_` is a delegate with a state of its own.
module _ {S G : Type 0} (l : Limiter S) (random_distribution_generator : G → G × ℕ) where
  -- The first half of tryAcquireOne().
  unfoldable pub collect : Now → Delegating S G → Delegating S G
  collect now s =
      let (inner, acquired) = l.try_acquire_one now s.rate_limiter in
      let (g, offset) = random_distribution_generator s.generator in
      if acquired
      then record s {
        rate_limiter = inner;
        generator = g;
        distributed_timings = insert_timing (now.monotonic + offset) s.distributed_timings;
      }
      else record s { rate_limiter = inner }

  unfoldable pub try_acquire_one : Now → Delegating S G → Delegating S G × Bool
  unfolding collect release_due
  try_acquire_one now s = let s' = collect now s in release_due now s'.distributed_timings s'

  unfoldable pub release_one : Now → Delegating S G → Outcome (Delegating S G)
  release_one now s =
      if s.sanity_check_pending_release
      then aborts
      else map_outcome
          (λ inner. record s { rate_limiter = inner; sanity_check_pending_release = true })
          (l.release_one now s.rate_limiter)

  unfoldable pub time_until_next_release : Now → Delegating S G → Option ℕ
  unfolding queued_or_wrapped
  time_until_next_release now s = elim (l.time_until_next_release now s.rate_limiter) [
    | none ↦ none
    | some wrapped ↦ some (queued_or_wrapped now s.distributed_timings wrapped)
  ]

  abbrev pub limiter : Limiter (Delegating S G)
  limiter = record {
    try_acquire_one = try_acquire_one;
    release_one = release_one;
    elapsed = λ now s.
        let (inner, e) = l.elapsed now s.rate_limiter in (record s { rate_limiter = inner }, e);
    first_acquisition_time = λ s. l.first_acquisition_time s.rate_limiter;
    time_until_next_release = time_until_next_release;
  }
