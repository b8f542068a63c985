-- ===== src/Worker/Snapshot.antt =====
-- The counters that a client worker keeps of itself when its work is done
-- (ClientWorkerImpl::work() of engine/source/client/client_worker_impl.cc). A text is a list of
-- the numbers of its characters.

pub mod Kept
pub mod Scopes
use sortie.Prelude.{
  same_bytes, zero, suc, ℕ, ◌+◌, ◌-◌, ◌*◌, ◌/◌, ◌%◌, ◌≤◌, ◌<◌, min, max, ◌≡◌, refl, sym, ap, ◌∙◌,
  ◌≢◌, ◌↔◌, ◌⊎◌, inl, inr, Bool, true, false, not, ◌&&◌, ◌||◌, Option, none, some, List, [], ◌∷◌,
  ◌++◌, map, arith, ltb, leb, ◌==◌, ==_iff, if◌then◌else◌, Bool-cases, Option-cases, one_if, length,
  take, drop, length-append, take-append, drop-append, All, bit_and, bit_or, bit_xor,
}
use mathlib.Core.List.{append_assoc}
use mathlib.Core.Path.{subst}

abbrev pub Text : Type 0
Text = List ℕ

-- absl::StartsWith() and absl::StripPrefix().
unfoldable pub starts_with : Text → Text → Bool
starts_with text [] = true
starts_with [] (p ∷ prefix) = false
starts_with (c ∷ text) (p ∷ prefix) = c == p && starts_with text prefix

unfoldable pub strip_prefix : Text → Text → Text
unfolding starts_with
strip_prefix text prefix = if starts_with text prefix then drop (length prefix) text else text

-- "cluster." and "worker.".
abbrev pub cluster_prefix : Text
cluster_prefix = 99 ∷ 108 ∷ 117 ∷ 115 ∷ 116 ∷ 101 ∷ 114 ∷ 46 ∷ []

abbrev pub worker_kind_prefix : Text
worker_kind_prefix = 119 ∷ 111 ∷ 114 ∷ 107 ∷ 101 ∷ 114 ∷ 46 ∷ []

-- The name that the worker of a prefix keeps a counter under, if it is one of its own.
unfoldable pub own_name : Text → Text → Option Text
unfolding strip_prefix starts_with
own_name worker_prefix name =
    let stat_name = strip_prefix (strip_prefix name cluster_prefix) worker_kind_prefix in
    if starts_with stat_name worker_prefix
    then some (strip_prefix stat_name worker_prefix)
    else none

-- threadLocalCounterValues_, a map.
unfoldable pub assign : Text → ℕ → List (Text × ℕ) → List (Text × ℕ)
assign name value [] = (name, value) ∷ []
assign name value ((key, old) ∷ rest) =
    let later = assign name value rest in
    if same_bytes key name then (key, value) ∷ rest else (key, old) ∷ later

unfoldable pub keep_own : Text → Text × ℕ → List (Text × ℕ) → List (Text × ℕ)
unfolding own_name assign
keep_own worker_prefix (name, value) kept = elim (own_name worker_prefix name) [
  | none ↦ kept
  | some short ↦ if value == 0 then kept else assign short value kept
]

unfoldable pub snapshot : Text → List (Text × ℕ) → List (Text × ℕ) → List (Text × ℕ)
unfolding keep_own
snapshot worker_prefix [] kept = kept
snapshot worker_prefix (counter ∷ counters) kept =
    snapshot worker_prefix counters (keep_own worker_prefix counter kept)

abbrev pub value_of : Text → List (Text × ℕ) → ℕ
value_of name [] = 0
value_of name ((key, value) ∷ rest) = if same_bytes key name then value else value_of name rest
