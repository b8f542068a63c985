-- ===== src/RateLimiter/Delegating/Timings.antt =====
-- The list of timings of a DelegatingRateLimiterImpl
-- (engine/source/common/rate_limiter_impl.cc).
use sortie.RateLimiter.{Now, Limiter}
use sortie.Prelude.{
  ap, leb, ◌+◌, false, Bool, ◌<◌, ℕ, suc, ◌≤◌, ◌≡◌, refl, inl, inr, List, [], ◌∷◌, ltb, length,
  arith, one_if, All, Bool-cases,
}
use sortie.RateLimiter.Delegating.{try_acquire_one, release_due, collect, Delegating, insert_timing}

-- Ascending, from a lower bound on.
abbrev pub SortedFrom : ℕ → List ℕ → Type 0
SortedFrom lo [] = Unit {0}
SortedFrom lo (x ∷ xs) = (lo ≤ x) × SortedFrom x xs

pub SortedFrom-insert_timing :
    (lo t : ℕ) (xs : List ℕ) → lo ≤ t → SortedFrom lo xs → SortedFrom lo (insert_timing t xs)
unfolding insert_timing
SortedFrom-insert_timing lo t [] h s = (h, tt)
SortedFrom-insert_timing lo t (x ∷ xs) h s = elim (Bool-cases (ltb t x)) [
  | inl p ↦ rw p (h, (ground arith, s.1))
  | inr p ↦ rw p (s.0, SortedFrom-insert_timing x t xs (ground arith) s.1)
]

length-insert_timing : (t : ℕ) (xs : List ℕ) → length (insert_timing t xs) ≡ suc (length xs)
unfolding insert_timing
length-insert_timing t [] = refl
length-insert_timing t (x ∷ xs) = ground (arith, length-insert_timing t xs)

All-gt_of_SortedFrom : (n lo : ℕ) (xs : List ℕ) → n < lo → SortedFrom lo xs → All (λ t. n < t) xs
All-gt_of_SortedFrom n lo [] h s = tt
All-gt_of_SortedFrom n lo (x ∷ xs) h s =
    let p : n < x = omega arith in (p, All-gt_of_SortedFrom n x xs p s.1)

SortedFrom-weaken : (lo t : ℕ) (xs : List ℕ) → lo ≤ t → SortedFrom t xs → SortedFrom lo xs
SortedFrom-weaken lo t [] h s = tt
SortedFrom-weaken lo t (x ∷ xs) h s = (omega arith, s.1)

-- What tryAcquireOne() does to the pending timings.
pub record Releases {S G : Type 0} (before after : Delegating S G) (acquired : Bool) (now : ℕ)
    (lo : ℕ) (ok : Bool) : Type 0 where
  pub sorted : SortedFrom lo after.distributed_timings
  pub conserved :
      length after.distributed_timings + one_if ok
      ≡ length before.distributed_timings + one_if acquired
  pub none_due_left : ok ≡ false → All (λ t. now < t) after.distributed_timings

module _ {S G : Type 0} (l : Limiter S) (generator : G → G × ℕ) where
  collect-sorted :
      (lo : ℕ) (now : Now) (s : Delegating S G)
      → lo ≤ now.monotonic
      → SortedFrom lo s.distributed_timings
      → SortedFrom lo (collect l generator now s).distributed_timings
  unfolding collect
  collect-sorted lo now s h v = ground (
    arith,
    SortedFrom-insert_timing lo (now.monotonic + (generator s.generator).1) s.distributed_timings,
  )

  length-collect :
      (now : Now) (s : Delegating S G)
      → length (collect l generator now s).distributed_timings
        ≡ length s.distributed_timings + one_if (l.try_acquire_one now s.rate_limiter).1
  unfolding collect
  length-collect now s = ground (
    arith,
    length-insert_timing (now.monotonic + (generator s.generator).1) s.distributed_timings,
  )

  release_due-Releases :
      (lo : ℕ) (now : Now) (ts : List ℕ) (s : Delegating S G)
      → s.distributed_timings ≡ ts
      → SortedFrom lo ts
      → Releases s (release_due now ts s).0 false now.monotonic lo (release_due now ts s).1
  unfolding release_due
  release_due-Releases lo now [] s e v =
      rw e (record { sorted = tt; conserved = refl; none_due_left = λ h. tt })
  release_due-Releases lo now (t ∷ ts) s e v = elim (Bool-cases (leb t now.monotonic)) [
    | inl due ↦ rw due (record {
      sorted = SortedFrom-weaken lo t ts v.0 v.1;
      conserved = omega (arith, ap length e);
      none_due_left = λ h. cc;
    })
    | inr later ↦
        let p : now.monotonic < t = ground arith in
        rw (later, e)
          (record {
            sorted = v;
            conserved = refl;
            none_due_left = λ h. (p, All-gt_of_SortedFrom now.monotonic t ts p v.1);
          })
  ]

  -- One call of a delegating limiter whose timings are sorted keeps them sorted, loses none and
  -- makes none up: what is pending afterwards and what was let through add up to what was pending
  -- and what the wrapped limiter granted. After a refusal no pending timing is due.
  pub try_acquire_one-Releases :
      (lo : ℕ) (now : Now) (s : Delegating S G)
      → lo ≤ now.monotonic
      → SortedFrom lo s.distributed_timings
      → let r = try_acquire_one l generator now s in
        Releases s r.0 (l.try_acquire_one now s.rate_limiter).1 now.monotonic lo r.1
  unfolding try_acquire_one
  try_acquire_one-Releases lo now s h v =
      let c = collect l generator now s in
      let r =
        release_due-Releases lo now c.distributed_timings c refl (collect-sorted lo now s h v) in
      record {
        sorted = r.sorted;
        conserved = omega (arith, r.conserved, length-collect now s);
        none_due_left = r.none_due_left;
      }
