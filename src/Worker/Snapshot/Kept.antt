-- ===== src/Worker/Snapshot/Kept.antt =====
-- What a client worker keeps under a name (engine/source/client/client_worker_impl.cc).

use mathlib.Core.Path.{subst}
use sortie.Worker.Snapshot.{own_name, value_of, snapshot, keep_own, assign, Text}
use sortie.Prelude.{
  same_bytes_refl, same_bytes, ℕ, ◌≡◌, refl, sym, ap, ◌∙◌, inl, inr, Bool, true, false, ◌&&◌, none,
  some, List, [], ◌∷◌, arith, ◌==◌, ==_iff, if◌then◌else◌, Bool-cases,
}

same_bytes_eq : (xs ys : Text) → same_bytes xs ys ≡ true → xs ≡ ys
same_bytes_eq [] [] e = refl
same_bytes_eq [] (y ∷ ys) e = ground arith
same_bytes_eq (x ∷ xs) [] e = ground arith
same_bytes_eq (x ∷ xs) (y ∷ ys) e = elim (Bool-cases (x == y)) [
  | inl same ↦
      let heads : x ≡ y = (==_iff x y).0 same in
      let tails : same_bytes xs ys ≡ true = (rw⁻¹ (ap (λ b. b && same_bytes xs ys) same) e) in
      ap (λ z. z ∷ xs) heads ∙ ap (λ zs. y ∷ zs) (same_bytes_eq xs ys tails)
  | inr other ↦ absurd (ground (arith, e, other))
]

-- Which of two assignments a name reads.
assigned :
    (same_key same_name : Bool) (value old rest : ℕ)
    → (if same_key then value else rest)
      ≡ (if same_key then value else if same_key then old else rest)
assigned true same_name value old rest = refl
assigned false same_name value old rest = refl

-- Two names that differ are not both a third.
not_both :
    (key name other : Text)
    → same_bytes key name ≡ false
    → same_bytes key other && same_bytes name other ≡ false
not_both key name other apart = elim (Bool-cases (same_bytes key other)) [
  | inr no_key ↦ rw (no_key) refl
  | inl key_is ↦ elim (Bool-cases (same_bytes name other)) [
    | inr no_name ↦ rw (key_is, no_name) refl
    | inl name_is ↦
        let names : key ≡ name =
          same_bytes_eq key other key_is ∙ sym (same_bytes_eq name other name_is) in
        let met : same_bytes key name ≡ true =
          ap (λ k. same_bytes k name) names ∙ same_bytes_refl name in
        absurd (ground (arith, met, apart))
  ]
]

swapped :
    (is_key is_name : Bool) (value old rest : ℕ)
    → is_key && is_name ≡ false
    → (if is_key then old else if is_name then value else rest)
      ≡ (if is_name then value else if is_key then old else rest)
swapped true true value old rest e = ground arith
swapped true false value old rest e = refl
swapped false is_name value old rest e = refl

value_of-assign :
    (name other : Text) (value : ℕ) (kept : List (Text × ℕ))
    → value_of other (assign name value kept)
      ≡ (if same_bytes name other then value else value_of other kept)
unfolding assign
value_of-assign name other value [] = refl
value_of-assign name other value ((key, old) ∷ rest) =
    let later = value_of-assign name other value rest in
    elim (Bool-cases (same_bytes key name)) [
      | inl there ↦
          let same = same_bytes_eq key name there in
          rw (there) (
            subst
              (λ k. (if same_bytes k other then value else value_of other rest) ≡ (
                if same_bytes name other
                then value
                else if same_bytes k other
                then old
                else value_of other rest))
              (sym same) (assigned (same_bytes name other) true value old (value_of other rest)))
      | inr elsewhere ↦
          rw (elsewhere, later)
            (swapped (same_bytes key other) (same_bytes name other) value old (value_of other rest)
              (not_both key name other elsewhere))
    ]

-- What is kept under a name: the last value, other than 0, of the counters that are the worker's
-- own under that name.
abbrev pub last_own : Text → Text → List (Text × ℕ) → ℕ → ℕ
last_own worker_prefix name [] value = value
last_own worker_prefix name ((counter, value) ∷ rest) before =
    last_own worker_prefix name rest (elim (own_name worker_prefix counter) [
      | none ↦ before
      | some short ↦ if value == 0 then before else if same_bytes short name then value else before
    ])

value_of-keep_own :
    (worker_prefix name counter : Text) (value : ℕ) (kept : List (Text × ℕ))
    → value_of name (keep_own worker_prefix (counter, value) kept)
      ≡ (elim (own_name worker_prefix counter) [
        | none ↦ value_of name kept
        | some short ↦
            if value == 0
            then value_of name kept
            else if same_bytes short name
            then value
            else value_of name kept
      ])
unfolding keep_own
value_of-keep_own worker_prefix name counter value kept =
    elim (own_name worker_prefix counter)
      as (λ o.
        value_of name (elim o [
          | none ↦ kept
          | some short ↦ if value == 0 then kept else assign short value kept
        ])
        ≡ (elim o [
          | none ↦ value_of name kept
          | some short ↦
              if value == 0
              then value_of name kept
              else if same_bytes short name
              then value
              else value_of name kept
        ])) [
          | none ↦ refl
          | some short ↦ elim (Bool-cases (value == 0)) [
            | inl zero_now ↦ rw (zero_now) refl
            | inr positive ↦ rw (positive) (value_of-assign short name value kept)
          ]
        ]

pub value_of-snapshot :
    (worker_prefix name : Text) (counters kept : List (Text × ℕ))
    → value_of name (snapshot worker_prefix counters kept)
      ≡ last_own worker_prefix name counters (value_of name kept)
unfolding snapshot
value_of-snapshot worker_prefix name [] kept = refl
value_of-snapshot worker_prefix name ((counter, value) ∷ counters) kept =
    value_of-snapshot worker_prefix name counters (keep_own worker_prefix (counter, value) kept)
    ∙ ap (last_own worker_prefix name counters)
        (value_of-keep_own worker_prefix name counter value kept)
