-- ===== src/Worker/Snapshot/Scopes.antt =====
-- Which counters are a client worker's own (engine/source/client/client_worker_impl.cc).

use sortie.Worker.Snapshot.Kept.{value_of-snapshot, last_own}
use mathlib.Core.List.{append_assoc}
use sortie.Worker.Snapshot.{
  snapshot, value_of, worker_kind_prefix, cluster_prefix, own_name, Text, strip_prefix, starts_with,
}
use sortie.Prelude.{
  same_bytes, ℕ, ◌≡◌, refl, sym, ap, ◌∙◌, ◌≢◌, inl, inr, true, false, none, some, List, [], ◌∷◌,
  ◌++◌, arith, ◌==◌, ==_iff, if◌then◌else◌, Bool-cases, length, drop-append, All,
}

starts_with-append : (prefix rest : Text) → starts_with (prefix ++ rest) prefix ≡ true
unfolding starts_with
starts_with-append [] [] = refl
starts_with-append [] (c ∷ rest) = refl
starts_with-append (p ∷ prefix) rest = ground (arith, starts_with-append prefix rest)

strip_prefix-append : (prefix rest : Text) → strip_prefix (prefix ++ rest) prefix ≡ rest
unfolding strip_prefix
strip_prefix-append prefix rest =
    rw (starts_with-append prefix rest) (drop-append (length prefix) prefix rest refl)

-- The number of a worker, and what follows it in the names of its counters.
abbrev pub scope_prefix : Text → Text
scope_prefix digits = digits ++ 46 ∷ []

abbrev pub HasNoDot : Text → Type 0
HasNoDot = All (λ c. c ≢ 46)

unequal : (a b : ℕ) → a ≢ b → (a == b) ≡ false
unequal a b apart = elim (Bool-cases (a == b)) [
  | inl same ↦ absurd (apart ((==_iff a b).0 same))
  | inr other ↦ other
]

starts_with-other :
    (digits others name : Text)
    → HasNoDot digits
    → HasNoDot others
    → same_bytes digits others ≡ false
    → starts_with (others ++ 46 ∷ name) (scope_prefix digits) ≡ false
unfolding starts_with
starts_with-other [] [] name d o apart = ground arith
starts_with-other [] (x ∷ others) name d o apart = rw (unequal x 46 o.0) refl
starts_with-other (x ∷ digits) [] name d o apart = rw (unequal 46 x (λ e. d.0 (sym e))) refl
starts_with-other (x ∷ digits) (y ∷ others) name d o apart = elim (Bool-cases (y == x)) [
  | inr other ↦ rw (other) refl
  | inl same ↦
      let heads : x ≡ y = sym ((==_iff y x).0 same) in
      let tails : same_bytes digits others ≡ false = ground (arith, apart, heads) in
      rw (same) (starts_with-other digits others name d.1 o.1 tails)
]

-- A name in the scope of the worker of a number, without the prefixes that are not its own.
strip-scope :
    (digit : ℕ) (digits name : Text)
    → digit ≢ 119
    → strip_prefix
        (strip_prefix (cluster_prefix ++ (digit ∷ digits) ++ 46 ∷ name) cluster_prefix)
        worker_kind_prefix
      ≡ (digit ∷ digits) ++ 46 ∷ name
unfolding strip_prefix starts_with
strip-scope digit digits name not_w =
    ap (λ text. strip_prefix text worker_kind_prefix)
      (strip_prefix-append cluster_prefix ((digit ∷ digits) ++ 46 ∷ name))
    ∙ (rw (unequal digit 119 not_w) refl)

scope_prefix-append : (digits name : Text) → digits ++ 46 ∷ name ≡ scope_prefix digits ++ name
scope_prefix-append digits name = sym (append_assoc digits (46 ∷ []) name)

own_name-own :
    (digit : ℕ) (digits name : Text)
    → digit ≢ 119
    → own_name (scope_prefix (digit ∷ digits)) (cluster_prefix ++ (digit ∷ digits) ++ 46 ∷ name)
      ≡ some name
unfolding own_name
own_name-own digit digits name not_w =
    let prefix = scope_prefix (digit ∷ digits) in
    let stripped =
      strip-scope digit digits name not_w ∙ scope_prefix-append (digit ∷ digits) name in
    let there : starts_with (prefix ++ name) prefix ≡ true = starts_with-append prefix name in
    ap (λ text. if starts_with text prefix then some (strip_prefix text prefix) else none) stripped
    ∙ (rw (there) (ap (λ n. some n) (drop-append (length prefix) prefix name refl)))

own_name-other :
    (digits : Text) (other : ℕ) (others name : Text)
    → other ≢ 119
    → HasNoDot digits
    → HasNoDot (other ∷ others)
    → same_bytes digits (other ∷ others) ≡ false
    → own_name (scope_prefix digits) (cluster_prefix ++ (other ∷ others) ++ 46 ∷ name) ≡ none
unfolding own_name
own_name-other digits other others name not_w d o apart =
    let prefix = scope_prefix digits in
    let elsewhere : starts_with ((other ∷ others) ++ 46 ∷ name) prefix ≡ false =
      starts_with-other digits (other ∷ others) name d o apart in
    ap (λ text. if starts_with text prefix then some (strip_prefix text prefix) else none)
      (strip-scope other others name not_w)
    ∙ (rw (elsewhere) refl)

-- The counters that a worker keeps when its work is done. Under a name it keeps the last value,
-- other than 0, of the counters that are its own under that name. A counter in its own scope,
-- "cluster.<number>.<name>", is its own under that name; one in the scope of a worker of another
-- number is not its own. A number has no dot and does not start with "w".
pub snapshot-own :
    (digit : ℕ) (digits : Text) (other : ℕ) (others name : Text) (counters : List (Text × ℕ))
    → digit ≢ 119
    → other ≢ 119
    → HasNoDot (digit ∷ digits)
    → HasNoDot (other ∷ others)
    → same_bytes (digit ∷ digits) (other ∷ others) ≡ false
    → (value_of name (snapshot (scope_prefix (digit ∷ digits)) counters [])
        ≡ last_own (scope_prefix (digit ∷ digits)) name counters 0)
      × (own_name (scope_prefix (digit ∷ digits)) (cluster_prefix ++ (digit ∷ digits) ++ 46 ∷ name)
          ≡ some name)
      × (own_name (scope_prefix (digit ∷ digits)) (cluster_prefix ++ (other ∷ others) ++ 46 ∷ name)
          ≡ none)
snapshot-own digit digits other others name counters not_w not_v d o apart = (
  value_of-snapshot (scope_prefix (digit ∷ digits)) name counters [],
  own_name-own digit digits name not_w,
  own_name-other (digit ∷ digits) other others name not_v d o apart,
)
