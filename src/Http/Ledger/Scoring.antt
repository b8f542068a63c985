-- ===== src/Http/Ledger/Scoring.antt =====
-- What a BenchmarkClientHttpImpl counts for one request that completes
-- (engine/source/client/benchmark_client_impl.cc).
use sortie.Prelude.{
  ℕ, ◌+◌, ◌%◌, ◌≡◌, refl, inl, inr, Bool, true, false, not, Option, List, [], ◌∷◌, arith,
  if◌then◌else◌, Bool-cases, one_if,
}
use sortie.Http.Counting.{
  is_ok, same_status, track_grpc_status, score, within, count_status, increment,
}
use sortie.Prelude.Words.{add64, u64_mod}
use sortie.Prelude.Updates.{total}
use sortie.Http.{Client, Counters}
use sortie.Http.Ledger.{answers, phases, failures, sides, tally}

pub tally-increment :
    {K : Type 0} (same : K → K → Bool) (key : K) (entries : List (K × ℕ))
    → total tally (increment same key entries) % u64_mod ≡ (total tally entries + 1) % u64_mod
unfolding increment
tally-increment same key [] = omega arith
tally-increment same key ((other, count) ∷ rest) = elim (Bool-cases (same key other)) [
  | inl here ↦ rw (here) (omega arith)
  | inr there ↦ rw (there) (omega (arith, tally-increment same key rest))
]

-- What one completion does to the counters and to the tally of grpc-status.
pub record ScoredOf (resets : ℕ) (grpc : Bool) (before after : List (Option ℕ × ℕ))
    (old_resets old_answers old_phases old_failures old_connection old_sides old_lost : ℕ)
    (new_resets new_answers new_phases new_failures new_connection new_sides new_lost : ℕ)
    : Type 0 where
  pub reset : new_resets % u64_mod ≡ (old_resets + resets) % u64_mod
  pub answered :
      grpc ≡ false → (new_resets + new_answers) % u64_mod ≡ (old_resets + old_answers + 1) % u64_mod
  pub tracks : grpc ≡ true → total tally after % u64_mod ≡ (total tally before + 1) % u64_mod
  pub same_phases : new_phases ≡ old_phases
  pub same_failures : new_failures ≡ old_failures
  pub same_connection : new_connection ≡ old_connection
  pub same_sides : new_sides ≡ old_sides
  pub same_lost : new_lost ≡ old_lost

abbrev pub Scored :
    ℕ → Bool → List (Option ℕ × ℕ) → List (Option ℕ × ℕ) → Counters → Counters → Type 0
Scored resets grpc before after n m =
    ScoredOf resets grpc before after n.stream_resets (answers n) (phases n) (failures n)
      n.pool_connection_failure (sides n) n.http_inflight_lost m.stream_resets (answers m)
      (phases m) (failures m) m.pool_connection_failure (sides m) m.http_inflight_lost

module _ (grpc : Bool) (before after : List (Option ℕ × ℕ)) (n : Counters)
    (tracks : grpc ≡ true → total tally after % u64_mod ≡ (total tally before + 1) % u64_mod) where
  if-Scored :
      (resets : ℕ) (b : Bool) (m k : Counters)
      → Scored resets grpc before after n m
      → Scored resets grpc before after n k
      → Scored resets grpc before after n (if b then m else k)
  if-Scored resets true m k v w = v
  if-Scored resets false m k v w = w

  one_answer-Scored :
      (m : Counters)
      → m.stream_resets ≡ n.stream_resets
      → answers m % u64_mod ≡ (answers n + 1) % u64_mod
      → phases m ≡ phases n
      → failures m ≡ failures n
      → m.pool_connection_failure ≡ n.pool_connection_failure
      → sides m ≡ sides n
      → m.http_inflight_lost ≡ n.http_inflight_lost
      → Scored 0 grpc before after n m
  one_answer-Scored m r a p f c s l = record {
    reset = omega (arith, r);
    answered = λ e. omega (arith, r, a);
    tracks = tracks;
    same_phases = p;
    same_failures = f;
    same_connection = c;
    same_sides = s;
    same_lost = l;
  }

  -- A 2xx that is not counted, in gRPC mode.
  no_answer-Scored : grpc ≡ true → Scored 0 grpc before after n n
  no_answer-Scored on = record {
    reset = omega arith;
    answered = λ e. absurd (ground (arith, on, e));
    tracks = tracks;
    same_phases = refl;
    same_failures = refl;
    same_connection = refl;
    same_sides = refl;
    same_lost = refl;
  }

  one_reset-Scored :
      (m : Counters)
      → m.stream_resets ≡ add64 n.stream_resets 1
      → answers m ≡ answers n
      → phases m ≡ phases n
      → failures m ≡ failures n
      → m.pool_connection_failure ≡ n.pool_connection_failure
      → sides m ≡ sides n
      → m.http_inflight_lost ≡ n.http_inflight_lost
      → Scored 1 grpc before after n m
  one_reset-Scored m r a p f c s l = record {
    reset = omega (arith, r);
    answered = λ e. omega (arith, r, a);
    tracks = tracks;
    same_phases = p;
    same_failures = f;
    same_connection = c;
    same_sides = s;
    same_lost = l;
  }

  counted_2xx-Scored :
      (counts : Bool)
      → (counts ≡ false → grpc ≡ true)
      → Scored 0 grpc before after n
          (if counts then record n { http_2xx = add64 n.http_2xx 1 } else n)
  counted_2xx-Scored true h =
      one_answer-Scored (record n { http_2xx = add64 n.http_2xx 1 }) refl (omega arith) refl refl
        refl refl refl
  counted_2xx-Scored false h = no_answer-Scored (h refl)

  -- A status is counted once, unless it is a 2xx of a call that failed.
  count_status-Scored :
      (status : ℕ) (counts : Bool)
      → (counts ≡ false → grpc ≡ true)
      → Scored 0 grpc before after n (count_status status counts n)
  unfolding count_status
  count_status-Scored status counts h =
      let m1 : Counters = record n { http_1xx = add64 n.http_1xx 1 } in
      let m2 : Counters = if counts then record n { http_2xx = add64 n.http_2xx 1 } else n in
      let m3 : Counters = record n { http_3xx = add64 n.http_3xx 1 } in
      let m4 : Counters = record n { http_4xx = add64 n.http_4xx 1 } in
      let m5 : Counters = record n { http_5xx = add64 n.http_5xx 1 } in
      let mx : Counters = record n { http_xxx = add64 n.http_xxx 1 } in
      let from5 : Counters = if within 499 599 status then m5 else mx in
      let from4 : Counters = if within 399 499 status then m4 else from5 in
      let from3 : Counters = if within 299 399 status then m3 else from4 in
      let from1 : Counters = if within 99 199 status then m1 else from3 in
      if-Scored 0 (within 199 299 status) m2 from1 (counted_2xx-Scored counts h) (
        if-Scored 0 (within 99 199 status) m1 from3
          (one_answer-Scored m1 refl (omega arith) refl refl refl refl refl)
          (if-Scored 0 (within 299 399 status) m3 from4
            (one_answer-Scored m3 refl (omega arith) refl refl refl refl refl)
            (if-Scored 0 (within 399 499 status) m4 from5
              (one_answer-Scored m4 refl (omega arith) refl refl refl refl refl)
              (if-Scored 0 (within 499 599 status) m5 mx
                (one_answer-Scored m5 refl (omega arith) refl refl refl refl refl)
                (one_answer-Scored mx refl (omega arith) refl refl refl refl refl)))))

pub score-Scored :
    (success : Bool) (status : ℕ) (grpc_status : Option ℕ) (c : Client)
    → Scored
        (one_if (not success))
        c.grpc
        c.grpc_status_counters
        (score success status grpc_status c).grpc_status_counters
        c.counters
        (score success status grpc_status c).counters
unfolding score track_grpc_status
score-Scored true status grpc_status c =
    let n = c.counters in
    let grown = tally-increment same_status grpc_status c.grpc_status_counters in
    let after = increment same_status grpc_status c.grpc_status_counters in
    elim (Bool-cases c.grpc) [
      | inr off ↦ rw (off) (
          count_status-Scored false c.grpc_status_counters c.grpc_status_counters n
            (λ e. absurd (ground (arith, e))) status true (λ e. absurd (ground (arith, e))))
      | inl on ↦ elim (Bool-cases (is_ok grpc_status)) [
        | inl ok ↦
            rw (on, ok)
              (count_status-Scored true c.grpc_status_counters after n (λ e. grown) status true
                (λ e. refl))
        | inr failed ↦
            rw (on, failed)
              (count_status-Scored true c.grpc_status_counters after
                (record n { grpc_error = add64 n.grpc_error 1 }) (λ e. grown) status false
                (λ e. refl))
      ]
    ]
score-Scored false status grpc_status c =
    let n = c.counters in
    let m : Counters = record n { stream_resets = add64 n.stream_resets 1 } in
    let grown = tally-increment same_status grpc_status c.grpc_status_counters in
    let after = increment same_status grpc_status c.grpc_status_counters in
    elim (Bool-cases c.grpc) [
      | inr off ↦ rw (off) (
          one_reset-Scored false c.grpc_status_counters c.grpc_status_counters n
            (λ e. absurd (ground (arith, e))) m refl refl refl refl refl refl refl)
      | inl on ↦ elim (Bool-cases (is_ok grpc_status)) [
        | inl ok ↦
            rw (on, ok)
              (one_reset-Scored true c.grpc_status_counters after n (λ e. grown) m refl refl refl
                refl refl refl refl)
        | inr failed ↦
            rw (on, failed)
              (one_reset-Scored true c.grpc_status_counters after n (λ e. grown)
                (record m { grpc_error = add64 m.grpc_error 1 }) refl refl refl refl refl refl refl)
      ]
    ]

-- Nothing else changes with a score.
pub score-shape :
    (success : Bool) (status : ℕ) (grpc_status : Option ℕ) (c : Client)
    → score success status grpc_status c ≡ record c {
      counters = (score success status grpc_status c).counters;
      grpc_status_counters = (score success status grpc_status c).grpc_status_counters;
    }
unfolding score track_grpc_status
score-shape true status grpc_status c = elim (Bool-cases c.grpc) [
  | inl on ↦ rw (on) refl
  | inr off ↦ rw (off) refl
]
score-shape false status grpc_status c = elim (Bool-cases c.grpc) [
  | inl on ↦ rw (on) refl
  | inr off ↦ rw (off) refl
]
