-- ===== src/RateLimiter/Linear/Pace.antt =====
-- What a LinearRateLimiter has let through and the elapsed time
-- (engine/source/common/rate_limiter_impl.cc).
use sortie.Prelude.Words.{i64_mod}
use sortie.Prelude.{
  refl, inr, inl, Bool, Bool-cases, false, ◌+◌, true, [], arith, ◌-◌, not, some, ◌∷◌, ◌<◌, ◌≡◌, ◌≤◌,
  ◌&&◌, List, if◌then◌else◌, ℕ,
}
use sortie.Prelude.Double.{Ops}
use sortie.RateLimiter.{done, Now}
use sortie.RateLimiter.Base.{elapsed}
use sortie.RateLimiter.Attempts.{Attempt, Ascending, last_time, last_time-ge}
use sortie.RateLimiter.Linear.{linear, Linear, due, try_acquire_one, release_one}

module _ (d : Ops) where
  -- What IEEE 754 documents of the rounded operations in `due`: they are monotone, up to a
  -- time at which nothing has overflowed.
  abbrev pub IsMonotone : ℕ → ℕ → Type 0
  IsMonotone hertz limit = (e e' : ℕ) → e ≤ e' → e' ≤ limit → due d hertz e ≤ due d hertz e'

  -- `e` nanoseconds after the start, what was let through and what is still to be had are due.
  pub record Inv (hertz start e : ℕ) (l : Linear) : Type 0 where
    pub running : l.base.start_time ≡ some start
    pub same_frequency : l.frequency ≡ hertz
    pub paced : l.acquired_count + l.acquireable_count ≤ due d hertz e
    pub representable : due d hertz e < i64_mod

  -- One attempt: tryAcquireOne(), and releaseOne() if it succeeded and is not used.
  abbrev pub attempt : Linear → Attempt → Linear
  attempt l (now, used) =
      let (l', acquired) = try_acquire_one d now l in
      if acquired && not used then release_one l' else l'

  abbrev pub run : Linear → List Attempt → Linear
  run l [] = l
  run l (op ∷ ops) = run (attempt l op) ops

  try-Inv :
      (hertz start e : ℕ) (now : Now) (l : Linear)
      → e ≡ now.monotonic - start
      → Inv hertz start e l
      → Inv hertz start e (try_acquire_one d now l).0
        × ((try_acquire_one d now l).1 ≡ true → 0 < (try_acquire_one d now l).0.acquired_count)
        × ((try_acquire_one d now l).1 ≡ false
            → (try_acquire_one d now l).0.acquired_count ≡ due d hertz e)
  unfolding try_acquire_one elapsed
  try-Inv hertz start e now l t v = (ground arith, ground arith, ground arith)

  release-Inv :
      (hertz start e : ℕ) (l : Linear)
      → 0 < l.acquired_count
      → Inv hertz start e l
      → Inv hertz start e (release_one l)
  unfolding release_one
  release-Inv hertz start e l h v = ground arith

  attempt-Inv :
      (hertz start : ℕ) (op : Attempt) (l : Linear)
      → Inv hertz start (op.0.monotonic - start) l
      → Inv hertz start (op.0.monotonic - start) (attempt l op)
  attempt-Inv hertz start op l v =
      let t = try-Inv hertz start (op.0.monotonic - start) op.0 l refl v in
      elim (Bool-cases (try_acquire_one d op.0 l).1) [
        | inl acquired ↦ elim (Bool-cases op.1) [
          | inl used ↦ rw (acquired, used) t.0
          | inr unused ↦ rw (acquired, unused) (release-Inv hertz start _ _ (t.1 acquired) t.0)
        ]
        | inr refused ↦ rw refused t.0
      ]

  -- Time passes: more becomes due.
  later-Inv :
      (hertz start e e' limit : ℕ) (l : Linear)
      → IsMonotone hertz limit
      → e ≤ e'
      → e' ≤ limit
      → due d hertz e' < i64_mod
      → Inv hertz start e l
      → Inv hertz start e' l
  later-Inv hertz start e e' limit l mono le near fits v = record {
    running = v.running;
    same_frequency = v.same_frequency;
    paced = omega (arith, v.paced, mono e e' le near);
    representable = fits;
  }

  run-Inv :
      (hertz start lo : ℕ) (l : Linear) (ops : List Attempt)
      → IsMonotone hertz (last_time lo ops - start)
      → due d hertz (last_time lo ops - start) < i64_mod
      → Ascending lo ops
      → Inv hertz start (lo - start) l
      → Inv hertz start (last_time lo ops - start) (run l ops)
  run-Inv hertz start lo l [] mono fits asc v = v
  run-Inv hertz start lo l ((now, used) ∷ ops) mono fits asc v =
      run-Inv hertz start now.monotonic (attempt l (now, used)) ops mono fits asc.1 (
        attempt-Inv hertz start (now, used) l
          (later-Inv hertz start (lo - start) (now.monotonic - start)
            (last_time now.monotonic ops - start) l mono (omega arith)
            (omega (arith, last_time-ge now.monotonic ops asc.1))
            (omega (
              arith,
              last_time-ge now.monotonic ops asc.1,
              mono (now.monotonic - start) (last_time now.monotonic ops - start),
            ))
            v))

  first-Inv :
      (hertz : ℕ) (now : Now) (used : Bool) (l : Linear)
      → linear hertz ≡ done l
      → due d hertz 0 < i64_mod
      → Inv hertz now.monotonic (now.monotonic - now.monotonic) (attempt l (now, used))
  unfolding linear try_acquire_one elapsed release_one
  first-Inv hertz now used l e fits = elim (Bool-cases (try_acquire_one d now l).1) [
    | inl acquired ↦ ground arith
    | inr refused ↦ ground arith
  ]

  history-Inv :
      (hertz : ℕ) (l : Linear) (now : Now) (used : Bool) (ops : List Attempt)
      → linear hertz ≡ done l
      → IsMonotone hertz (last_time now.monotonic ops - now.monotonic)
      → Ascending now.monotonic ops
      → due d hertz (last_time now.monotonic ops - now.monotonic) < i64_mod
      → Inv hertz now.monotonic
          (last_time now.monotonic ops - now.monotonic)
          (run l ((now, used) ∷ ops))
  history-Inv hertz l now used ops new mono asc fits =
      run-Inv hertz now.monotonic now.monotonic (attempt l (now, used)) ops mono fits asc (
        first-Inv hertz now used l new
          (omega (arith, mono 0 (last_time now.monotonic ops - now.monotonic))))

  -- However a new linear limiter is asked from its first call on, at times that do not go back, and
  -- whatever is handed back: what it has let through and not taken back is at most what is due at
  -- the time of the last call. The arithmetic on doubles is taken to be monotone up to that time,
  -- and the number due to fit an int64_t.
  pub linear_paced :
      (hertz : ℕ) (l : Linear) (now : Now) (used : Bool) (ops : List Attempt)
      → linear hertz ≡ done l
      → IsMonotone hertz (last_time now.monotonic ops - now.monotonic)
      → Ascending now.monotonic ops
      → due d hertz (last_time now.monotonic ops - now.monotonic) < i64_mod
      → (run l ((now, used) ∷ ops)).acquired_count
        ≤ due d hertz (last_time now.monotonic ops - now.monotonic)
  linear_paced hertz l now used ops new mono asc fits =
      omega (arith, (history-Inv hertz l now used ops new mono asc fits).paced)

  -- A linear limiter that refuses has let through all that is due: after calls from the first one
  -- on, at times that do not go back, a call at the time of the last one that fails leaves exactly
  -- the number due as acquired. The arithmetic on doubles is taken to be monotone up to that time,
  -- and the number due to fit an int64_t.
  pub linear_keeps_up :
      (hertz : ℕ) (l : Linear) (now at : Now) (used : Bool) (ops : List Attempt)
      → linear hertz ≡ done l
      → IsMonotone hertz (last_time now.monotonic ops - now.monotonic)
      → Ascending now.monotonic ops
      → due d hertz (last_time now.monotonic ops - now.monotonic) < i64_mod
      → at.monotonic ≡ last_time now.monotonic ops
      → (try_acquire_one d at (run l ((now, used) ∷ ops))).1 ≡ false
      → (try_acquire_one d at (run l ((now, used) ∷ ops))).0.acquired_count
        ≡ due d hertz (last_time now.monotonic ops - now.monotonic)
  linear_keeps_up hertz l now at used ops new mono asc fits e refused =
      (try-Inv hertz now.monotonic _ at _ (rw e)
          (history-Inv hertz l now used ops new mono asc fits)).2
        refused
