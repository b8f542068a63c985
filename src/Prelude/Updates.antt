-- ===== src/Prelude/Updates.antt =====
-- Lists that are changed at an index: sums, predicates and reads.
use sortie.Prelude.{◌++◌}
use Prim.Native.Nat.{ℕ, zero, suc, ◌+◌, ◌≤◌, ◌<◌}
use mathlib.Core.Path.{◌≡◌, refl, ap}
use mathlib.Core.Logic.{◌⊎◌, inl, inr}
use mathlib.Core.List.{List, [], ◌∷◌}
use native.Mathlib.Omega.{arith}
use mathlib.Core.Bool.{Bool}
use sortie.Prelude.Tests.{one_if, ◌==◌}
use sortie.Prelude.Lists.{length, get_or, update_at, All}

module _ {A : Type 0} (f : A → ℕ) where
  abbrev pub total : List A → ℕ
  total [] = 0
  total (x ∷ xs) = f x + total xs

  -- Replacing an element changes the sum by what it counts.
  pub total-update_at :
      (default : A) (i : ℕ) (x : A) (xs : List A)
      → f default ≡ 0
      → (f x ≤ f (get_or default i xs)) ⊎ (i < length xs)
      → total (update_at i (λ old. x) xs) + f (get_or default i xs) ≡ total xs + f x
  total-update_at default i x [] z (inl h) = omega (arith, z, h)
  total-update_at default i x [] z (inr h) = absurd (omega arith)
  total-update_at default zero x (y ∷ xs) z h = omega arith
  total-update_at default (suc i) x (y ∷ xs) z (inl h) =
      omega (arith, total-update_at default i x xs z (inl h))
  total-update_at default (suc i) x (y ∷ xs) z (inr h) =
      omega (arith, total-update_at default i x xs z (inr (omega arith)))

  -- So it does in range whatever the default counts, and out of range it does nothing.
  pub total-update_in :
      (default : A) (i : ℕ) (x : A) (xs : List A)
      → i < length xs
      → total (update_at i (λ old. x) xs) + f (get_or default i xs) ≡ total xs + f x
  total-update_in default i x [] h = absurd (omega arith)
  total-update_in default zero x (y ∷ xs) h = omega arith
  total-update_in default (suc i) x (y ∷ xs) h =
      omega (arith, total-update_in default i x xs (omega arith))

  pub total-update_same :
      (default : A) (i : ℕ) (x : A) (xs : List A)
      → f x ≡ f (get_or default i xs)
      → total (update_at i (λ old. x) xs) ≡ total xs
  total-update_same default i x [] e = refl
  total-update_same default zero x (y ∷ xs) e = omega (arith, e)
  total-update_same default (suc i) x (y ∷ xs) e = omega (arith, total-update_same default i x xs e)

module _ {κ} {A : Type 0} (P : A → Type κ) where
  pub All-update_at :
      (i : ℕ) (x : A) (xs : List A) → All P xs → P x → All P (update_at i (λ old. x) xs)
  All-update_at i x [] v h = tt
  All-update_at zero x (y ∷ xs) v h = (h, v.1)
  All-update_at (suc i) x (y ∷ xs) v h = (v.0, All-update_at i x xs v.1 h)

  pub All-get_or :
      (default : A) (i : ℕ) (xs : List A) → P default → All P xs → P (get_or default i xs)
  All-get_or default i [] d v = d
  All-get_or default zero (x ∷ xs) d v = v.0
  All-get_or default (suc i) (x ∷ xs) d v = All-get_or default i xs d v.1

module _ {A : Type 0} where
  pub length-update_at :
      (i : ℕ) (x : A) (xs : List A) → length (update_at i (λ old. x) xs) ≡ length xs
  length-update_at i x [] = refl
  length-update_at zero x (y ∷ xs) = refl
  length-update_at (suc i) x (y ∷ xs) = ap suc (length-update_at i x xs)

  pub get_or-update_at :
      (default : A) (i : ℕ) (x : A) (xs : List A)
      → i < length xs
      → get_or default i (update_at i (λ old. x) xs) ≡ x
  get_or-update_at default i x [] h = absurd (omega arith)
  get_or-update_at default zero x (y ∷ xs) h = refl
  get_or-update_at default (suc i) x (y ∷ xs) h = get_or-update_at default i x xs (omega arith)

  -- An index whose element counts for something is in range.
  pub counted_in_range :
      (f : A → ℕ) (default : A) (i : ℕ) (xs : List A)
      → f default ≡ 0
      → 0 < f (get_or default i xs)
      → i < length xs
  counted_in_range f default i [] z h = absurd (omega (arith, z, h))
  counted_in_range f default zero (x ∷ xs) z h = omega arith
  counted_in_range f default (suc i) (x ∷ xs) z h =
      omega (arith, counted_in_range f default i xs z h)

module _ {A : Type 0} (default : A) where
  -- An element replaced by what a function makes of it.
  abbrev pub amend : ℕ → (A → A) → List A → List A
  amend i f xs = update_at i (λ old. f (get_or default i xs)) xs

  pub amend-commutes :
      (f g : A → A) (i : ℕ) (xs : List A)
      → ((a : A) → f (g a) ≡ g (f a))
      → amend i f (amend i g xs) ≡ amend i g (amend i f xs)
  amend-commutes f g i [] e = refl
  amend-commutes f g zero (x ∷ xs) e = ap (λ a. a ∷ xs) (e x)
  amend-commutes f g (suc i) (x ∷ xs) e = ap (λ ys. x ∷ ys) (amend-commutes f g i xs e)

  -- An amendment that another one undoes.
  pub amend_over :
      (f g : A → A) (i : ℕ) (xs : List A)
      → ((a : A) → f (g a) ≡ f a)
      → amend i f (amend i g xs) ≡ amend i f xs
  amend_over f g i [] e = refl
  amend_over f g zero (x ∷ xs) e = ap (λ a. a ∷ xs) (e x)
  amend_over f g (suc i) (x ∷ xs) e = ap (λ ys. x ∷ ys) (amend_over f g i xs e)

  -- What an amendment leaves alone.
  pub get_or-amend {κ} :
      {B : Type κ} (h : A → B) (f : A → A) (i : ℕ) (xs : List A)
      → ((a : A) → h (f a) ≡ h a)
      → h (get_or default i (amend i f xs)) ≡ h (get_or default i xs)
  get_or-amend h f i [] e = refl
  get_or-amend h f zero (x ∷ xs) e = e x
  get_or-amend h f (suc i) (x ∷ xs) e = get_or-amend h f i xs e

module _ {A : Type 0} (f : A → ℕ) where
  pub total-append : (xs : List A) (x : A) → total f (xs ++ x ∷ []) ≡ total f xs + f x
  total-append [] x = omega arith
  total-append (y ∷ xs) x = omega (arith, total-append xs x)

  pub get_or_last :
      (default : A) (xs : List A) (x : A) → get_or default (length xs) (xs ++ x ∷ []) ≡ x
  get_or_last default [] x = refl
  get_or_last default (y ∷ xs) x = get_or_last default xs x

-- Callbacks are numbers, and the calls of one are counted by sums of these.
abbrev pub is_callback : ℕ → ℕ → ℕ
is_callback k callback = one_if (callback == k)

abbrev pub is_call : ℕ → ℕ × Bool → ℕ
is_call k call = is_callback k call.0
