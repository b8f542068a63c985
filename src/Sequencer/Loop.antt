-- ===== src/Sequencer/Loop.antt =====
-- The loop of SequencerImpl::run() (engine/source/common/sequencer_impl.cc) over a limiter that
-- keeps a pace.
use sortie.Prelude.Words.{u64_mod}
use sortie.Prelude.{
  ap, inl, ◌∙◌, inr, Bool-cases, zero, suc, suc, arith, ◌+◌, some, ◌<◌, [], ◌≡◌, ℕ, Option,
}
use sortie.RateLimiter.{Now, Limiter, Outcome, done}
use sortie.RateLimiter.Pacer.{Pacer}
use sortie.Sequencer.{Sequencer, Reply, acquire_loop, initiated, refused}

-- A target that makes no callback before it returns, as the benchmark clients, which post them.
abbrev pub IsAsync : {T : Type 0} → (Now → T → Reply T) → Type 0
IsAsync {T} call_target = (clock : Now) (t : T) → (call_target clock t).completions ≡ []

-- The run returned, without an exception and within its fuel, in a state with `P`.
abbrev pub Finishes :
    {S T : Type 0} → (Sequencer S T → Type 0) → Option (Outcome (Sequencer S T)) → Type 0
Finishes P (some (done s)) = P s
Finishes P _ = ⊥

module _ {S T : Type 0} (l : Limiter S) (p : Pacer l) (call_target : Now → T → Reply T) where
  -- As many targets are initiated as the limiter counts acquisitions.
  pub record Paced (now : Now) (s : Sequencer S T) : Type 0 where
    pub fine : p.Ok now s.rate_limiter
    pub counted : p.acquired s.rate_limiter ≡ s.targets_initiated

  initiated_limiter :
      (now : Now) (s : Sequencer S T)
      → (initiated l call_target now s).rate_limiter ≡ s.rate_limiter
  unfolding initiated
  initiated_limiter now s = ground arith

  initiated-Paced :
      (now : Now) (s : Sequencer S T)
      → p.Ok now s.rate_limiter
      → p.acquired s.rate_limiter ≡ s.targets_initiated + 1
      → p.limit now < u64_mod
      → Paced now (initiated l call_target now s)
  unfolding initiated
  initiated-Paced now s fine e small = record {
    fine = ground (arith, fine);
    counted = ground (arith, e, p.bounded now s.rate_limiter fine);
  }

  refused-Paced :
      (now : Now) (s : Sequencer S T)
      → p.Ok now s.rate_limiter
      → p.acquired s.rate_limiter ≡ s.targets_initiated + 1
      → Finishes (Paced now) (some (refused l call_target now s))
  unfolding refused
  refused-Paced now s fine e =
      let (inner, returned, ok, fewer) = p.returns now s.rate_limiter fine (omega arith) in
      rw returned (record { fine = ok; counted = ground (arith, fewer) })

  pub acquire_loop-Paced :
      (fuel : ℕ) (now : Now) (s : Sequencer S T)
      → IsAsync call_target
      → p.limit now < u64_mod
      → p.limit now < fuel + p.acquired s.rate_limiter
      → Paced now s
      → Finishes (Paced now) (acquire_loop l call_target fuel now now s)
  unfolding acquire_loop
  acquire_loop-Paced zero now s async small enough v =
      absurd (omega (arith, p.bounded now s.rate_limiter v.fine))
  acquire_loop-Paced (suc fuel) now s async small enough v =
      elim (Bool-cases (l.try_acquire_one now s.rate_limiter).1) [
        | inr no_more ↦
            let r = p.refuses now s.rate_limiter v.fine no_more in
            rw (no_more, acquire_loop) (record { fine = r.0; counted = r.1 ∙ v.counted })
        | inl more ↦
            let g = p.grants now s.rate_limiter v.fine more in
            let e = async now s.target in
            let called : Sequencer S T = record s {
              rate_limiter = (l.try_acquire_one now s.rate_limiter).0;
              target = (call_target now s.target).target;
            } in
            elim (Bool-cases (call_target now s.target).could_start) [
              | inl starts ↦
                  let next : Sequencer S T = initiated l call_target now called in
                  rw (more, acquire_loop, starts, e)
                    (acquire_loop-Paced fuel now next async small
                      (rw (initiated_limiter now called) (omega (arith, g.1)))
                      (initiated-Paced now called g.0 (g.1 ∙ ap (λ n. n + 1) v.counted) small))
              | inr full ↦
                  rw (more, acquire_loop, full, e)
                    (refused-Paced now called g.0 (g.1 ∙ ap (λ n. n + 1) v.counted))
            ]
      ]
