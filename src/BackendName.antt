-- ===== src/BackendName.antt =====
-- sanitizeBackendName() (engine/source/client/backend_name.cc), on the bytes of a name.
mod Examples
use sortie.Prelude.{
  zero, suc, ℕ, ◌+◌, ◌-◌, ◌*◌, ◌/◌, ◌%◌, ◌≤◌, ◌<◌, min, max, ◌≡◌, refl, sym, ap, ◌∙◌, ◌≢◌, ◌↔◌, ◌⊎◌,
  inl, inr, Bool, true, false, not, ◌&&◌, ◌||◌, Option, none, some, List, [], ◌∷◌, ◌++◌, map, arith,
  ltb, leb, ◌==◌, ==_iff, if◌then◌else◌, Bool-cases, Option-cases, one_if, length, take, drop,
  length-append, take-append, drop-append, All, bit_and, bit_or, bit_xor,
}

-- A letter, a digit or an underscore, in lower case.
abbrev pub is_kept : ℕ → Bool
is_kept lower = leb 97 lower && leb lower 122 || (leb 48 lower && leb lower 57 || lower == 95)

-- absl::ascii_tolower() is a parameter.
module _ (ascii_tolower : ℕ → ℕ) where
  -- The loop: whether other characters are pending, and whether something was put out before.
  unfoldable pub sanitize : Bool → Bool → List ℕ → List ℕ
  sanitize pending started [] = []
  sanitize pending started (c ∷ cs) =
      let lower = ascii_tolower c in
      let kept = sanitize false true cs in
      let dropped = sanitize true started cs in
      if is_kept lower
      then if pending && started then 95 ∷ lower ∷ kept else lower ∷ kept
      else dropped

  unfoldable pub sanitize_backend_name : List ℕ → List ℕ
  unfolding sanitize
  sanitize_backend_name name = sanitize false false name

-- What a metric's name may hold.
abbrev pub IsAllowed : ℕ → Type 0
IsAllowed c = ((97 ≤ c) × (c ≤ 122)) ⊎ (((48 ≤ c) × (c ≤ 57)) ⊎ (c ≡ 95))

is_kept-IsAllowed : (c : ℕ) → is_kept c ≡ true → IsAllowed c
is_kept-IsAllowed c h = ground arith

allowed_is_kept : (c : ℕ) → IsAllowed c → is_kept c ≡ true
allowed_is_kept c h = ground arith

module _ (ascii_tolower : ℕ → ℕ) where
  sanitize-IsAllowed :
      (pending started : Bool) (name : List ℕ)
      → All IsAllowed (sanitize ascii_tolower pending started name)
  unfolding sanitize
  sanitize-IsAllowed pending started [] = tt
  sanitize-IsAllowed pending started (c ∷ cs) =
      let kept = sanitize-IsAllowed false true cs in
      let dropped = sanitize-IsAllowed true started cs in
      elim (Bool-cases (is_kept (ascii_tolower c))) [
        | inr other ↦ rw (other) dropped
        | inl keeps ↦
            let fine = is_kept-IsAllowed (ascii_tolower c) keeps in
            elim (Bool-cases (pending && started)) [
              | inl gap ↦ rw (keeps, gap) (inr (inr refl), (fine, kept))
              | inr joined ↦ rw (keeps, joined) (fine, kept)
            ]
      ]

module _ (ascii_tolower : ℕ → ℕ) (lowers : (c : ℕ) → IsAllowed c → ascii_tolower c ≡ c) where
  sanitize_allowed :
      (started : Bool) (name : List ℕ)
      → All IsAllowed name
      → sanitize ascii_tolower false started name ≡ name
  unfolding sanitize
  sanitize_allowed started [] v = refl
  sanitize_allowed started (c ∷ cs) v =
      let same = lowers c v.0 in
      let keeps = allowed_is_kept c v.0 in rw (same, keeps, sanitize_allowed true cs v.1) refl

  -- Whatever the name, what is left of it consists of lower-case letters, digits and underscores
  -- only, and sanitizing it again changes nothing. absl::ascii_tolower() is taken to leave such
  -- characters alone.
  pub sanitize_backend_name_twice :
      (name : List ℕ)
      → let clean = sanitize_backend_name ascii_tolower name in
        All IsAllowed clean × (sanitize_backend_name ascii_tolower clean ≡ clean)
  unfolding sanitize_backend_name
  sanitize_backend_name_twice name =
      let v = sanitize-IsAllowed ascii_tolower false false name in
      (v, sanitize_allowed false (sanitize ascii_tolower false false name) v)
