-- ===== src/Statistic/Combining.antt =====
-- What combined statistics of two workers say of the values of both: their extremes, their number
-- and their samples (engine/source/common/statistic_impl.cc).
use sortie.Prelude.{
  ℕ, ◌+◌, ◌*◌, ◌%◌, ◌≤◌, ◌<◌, min, max, ◌≡◌, refl, sym, ap, ◌∙◌, inl, inr, List, [], ◌∷◌, ◌++◌,
  arith, ◌==◌, if◌then◌else◌, Bool-cases, length, length-append,
}
use mathlib.Core.List.{append_assoc, append-nil}
use mathlib.Core.Path.{subst}
use sortie.Prelude.Words.{u64_mod}
use sortie.Statistic.{
  Streaming, Simple, new_in_memory, new_streaming, new_simple, combine_in_memory, combine_streaming,
  add_to_streaming, combine_simple, InMemory, add_to_simple, add_to_in_memory, Base, no_values,
  add_to_base, combine_bases, uint64_max, one_billion, set_duration_from_nanos, reported_min,
  Floats,
}

-- Values recorded in their order.
abbrev pub add_all : {S : Type 0} → (ℕ → S → S) → List ℕ → S → S
add_all add [] s = s
add_all add (value ∷ values) s = add_all add values (add value s)

abbrev pub smallest : List ℕ → ℕ
smallest [] = uint64_max
smallest (value ∷ values) = min value (smallest values)

abbrev pub largest : List ℕ → ℕ
largest [] = 0
largest (value ∷ values) = max value (largest values)

-- What a base says of the values that it recorded.
pub record Describes (values : List ℕ) (b : Base) : Type 0 where
  pub lowest : b.min_value ≡ smallest values
  pub highest : b.max_value ≡ largest values
  pub number_of : b.count ≡ length values % u64_mod

smallest-le : (values : List ℕ) → smallest values ≤ uint64_max
smallest-le [] = omega arith
smallest-le (value ∷ values) = omega (arith, smallest-le values)

smallest-append : (xs ys : List ℕ) → smallest (xs ++ ys) ≡ min (smallest xs) (smallest ys)
smallest-append [] ys = omega (arith, smallest-le ys)
smallest-append (x ∷ xs) ys = omega (arith, smallest-append xs ys)

largest-append : (xs ys : List ℕ) → largest (xs ++ ys) ≡ max (largest xs) (largest ys)
largest-append [] ys = omega arith
largest-append (x ∷ xs) ys = omega (arith, largest-append xs ys)

-- Recording more values.
record_more :
    (before values : List ℕ) (b : Base)
    → Describes before b
    → Describes (before ++ values) (add_all add_to_base values b)
unfolding add_to_base
record_more before [] b v = subst (λ xs. Describes xs b) (sym (append-nil before)) v
record_more before (value ∷ values) b v =
    let low = smallest-append before (value ∷ []) in
    let high = largest-append before (value ∷ []) in
    let size = length-append before (value ∷ []) in
    let bound = smallest-le before in
    subst (λ xs. Describes xs (add_all add_to_base values (add_to_base value b)))
      (append_assoc before (value ∷ []) values)
      (record_more (before ++ value ∷ []) values (add_to_base value b) (record {
        lowest = omega (arith, v.lowest, low, bound);
        highest = omega (arith, v.highest, high);
        number_of = omega (arith, v.number_of, size);
      }))

recorded-Describes : (values : List ℕ) → Describes values (add_all add_to_base values no_values)
recorded-Describes values =
    record_more [] values no_values (record { lowest = refl; highest = refl; number_of = refl })

combine_bases-Describes :
    (xs ys : List ℕ) (a b : Base)
    → Describes xs a
    → Describes ys b
    → Describes (xs ++ ys) (combine_bases a b)
unfolding combine_bases
combine_bases-Describes xs ys a b v w = record {
  lowest = omega (arith, v.lowest, w.lowest, smallest-append xs ys);
  highest = omega (arith, v.highest, w.highest, largest-append xs ys);
  number_of = omega (arith, v.number_of, w.number_of, length-append xs ys);
}

-- The base of a statistic does not depend on what else it keeps.
base-add_all :
    {S : Type 0} (base : S → Base) (add : ℕ → S → S) (values : List ℕ) (s : S)
    → ((value : ℕ) (t : S) → base (add value t) ≡ add_to_base value (base t))
    → base (add_all add values s) ≡ add_all add_to_base values (base s)
base-add_all base add [] s e = refl
base-add_all base add (value ∷ values) s e =
    base-add_all base add values (add value s) e ∙ ap (add_all add_to_base values) (e value s)

all_recorded :
    {S : Type 0} (base : S → Base) (add : ℕ → S → S) (values : List ℕ) (s : S)
    → ((value : ℕ) (t : S) → base (add value t) ≡ add_to_base value (base t))
    → base s ≡ no_values
    → Describes values (base (add_all add values s))
all_recorded base add values s e fresh =
    subst (λ b. Describes values b)
      (sym (base-add_all base add values s e ∙ ap (add_all add_to_base values) fresh))
      (recorded-Describes values)

samples-add_all :
    (f : Floats) (values : List ℕ) (s : InMemory f)
    → (add_all (add_to_in_memory f) values s).samples ≡ s.samples ++ values
unfolding add_to_in_memory
samples-add_all f [] s = sym (append-nil s.samples)
samples-add_all f (value ∷ values) s =
    samples-add_all f values (add_to_in_memory f value s)
    ∙ append_assoc s.samples (value ∷ []) values

module _ (f : Floats) where
  abbrev pub simple : List ℕ → Simple f
  simple values = add_all (add_to_simple f) values (new_simple f)

  abbrev pub streaming : List ℕ → Streaming f
  streaming values = add_all (add_to_streaming f) values (new_streaming f)

  abbrev pub in_memory : List ℕ → InMemory f
  in_memory values = add_all (add_to_in_memory f) values (new_in_memory f)

  simple-Describes : (values : List ℕ) → Describes values (simple values).base
  unfolding add_to_simple
  simple-Describes values =
      all_recorded (λ s. s.base) (add_to_simple f) values (new_simple f) (λ v s. refl) refl

  pub streaming-Describes : (values : List ℕ) → Describes values (streaming values).base
  unfolding add_to_streaming
  streaming-Describes values =
      all_recorded (λ s. s.base) (add_to_streaming f) values (new_streaming f) (λ v s. refl) refl

  in_memory-Describes : (values : List ℕ) → Describes values (in_memory values).base
  unfolding add_to_in_memory
  in_memory-Describes values =
      all_recorded (λ s. s.base) (add_to_in_memory f) values (new_in_memory f) (λ v s. refl) refl

  combine_streaming-base :
      (a b : Streaming f) → (combine_streaming f a b).base ≡ combine_bases a.base b.base
  unfolding combine_streaming
  combine_streaming-base a b = elim (Bool-cases ((combine_bases a.base b.base).count == 0)) [
    | inl empty ↦ rw (empty) refl
    | inr some_there ↦ rw (some_there) refl
  ]

  combine_in_memory-Describes :
      (xs ys : List ℕ) (a b : InMemory f)
      → length (xs ++ ys) < u64_mod
      → Describes xs a.base
      → Describes ys b.base
      → a.samples ≡ xs
      → b.samples ≡ ys
      → Describes (xs ++ ys) (combine_in_memory f a b).base
  unfolding combine_in_memory
  combine_in_memory-Describes xs ys a b few v w e h =
      let samples : a.samples ++ b.samples ≡ xs ++ ys =
        ap (λ zs. zs ++ b.samples) e ∙ ap (λ zs. xs ++ zs) h in
      let size : length (a.samples ++ b.samples) ≡ length (xs ++ ys) = ap length samples in
      record {
        lowest = omega (arith, v.lowest, w.lowest, smallest-append xs ys);
        highest = omega (arith, v.highest, w.highest, largest-append xs ys);
        number_of = omega (arith, size, few);
      }

-- Two workers' statistics of one class, combined: the minimum, the maximum and the number of
-- values are those of all values of both, for the simple, the streaming and the in-memory class,
-- and the in-memory class has the samples of both in their order. Fewer than 2^64 values are
-- assumed.
pub combine-Describes :
    (f : Floats) (xs ys : List ℕ)
    → length (xs ++ ys) < u64_mod
    → Describes (xs ++ ys) (combine_simple f (simple f xs) (simple f ys)).base
      × Describes (xs ++ ys) (combine_streaming f (streaming f xs) (streaming f ys)).base
      × Describes (xs ++ ys) (combine_in_memory f (in_memory f xs) (in_memory f ys)).base
      × ((combine_in_memory f (in_memory f xs) (in_memory f ys)).samples ≡ xs ++ ys)
unfolding combine_simple combine_in_memory
combine-Describes f xs ys few =
    let first = samples-add_all f xs (new_in_memory f) in
    let second = samples-add_all f ys (new_in_memory f) in
    (
      combine_bases-Describes xs ys (simple f xs).base (simple f ys).base (simple-Describes f xs)
          (simple-Describes f ys),
      subst (λ b. Describes (xs ++ ys) b)
          (sym (combine_streaming-base f (streaming f xs) (streaming f ys)))
          (combine_bases-Describes xs ys (streaming f xs).base (streaming f ys).base
            (streaming-Describes f xs) (streaming-Describes f ys)),
      combine_in_memory-Describes f xs ys (in_memory f xs) (in_memory f ys) few
          (in_memory-Describes f xs) (in_memory-Describes f ys) first second,
      ap (λ zs. zs ++ (in_memory f ys).samples) first ∙ ap (λ zs. xs ++ zs) second,
    )

-- A duration of nanoseconds is written as whole seconds and the rest, and the minimum of no values
-- as 0, as is one of 2^64 - 1; every other minimum is written as it is.
pub durations_add_up :
    (nanos : ℕ) (values : List ℕ)
    → let d = set_duration_from_nanos nanos in
      let m = reported_min (add_all add_to_base values no_values) in
      (d.seconds * one_billion + d.nanos ≡ nanos)
      × (d.nanos < one_billion)
      × (m.seconds * one_billion + m.nanos
          ≡ (if smallest values == uint64_max then 0 else smallest values))
unfolding set_duration_from_nanos reported_min
durations_add_up nanos values =
    let low : (add_all add_to_base values no_values).min_value ≡ smallest values =
      (recorded-Describes values).lowest in
    (omega arith, omega arith, rw (low) (omega arith))
