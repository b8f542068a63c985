-- ===== src/RequestSource/Exhausted.antt =====
-- What the generator of a static request source gives from call to call
-- (StaticRequestSourceImpl::get()).

use sortie.Prelude.Words.{sub64, u64_mod}
use sortie.RequestSource.{generate, Static}
use sortie.Prelude.{
  zero, suc, ℕ, ◌<◌, ◌≡◌, refl, ap, false, Option, none, some, List, [], ◌∷◌, ◌++◌, arith, ◌==◌,
}

module _ (H : Type 0) where
  abbrev pub calls : ℕ → Static H → List (Option (H × List ℕ))
  calls zero s = []
  calls (suc n) s = (generate H s).0 ∷ calls n (generate H s).1

  abbrev pub times : ℕ → H × List ℕ → List (Option (H × List ℕ))
  times zero request = []
  times (suc n) request = some request ∷ times n request

-- A static source of `n` requests gives its request `n` times and then none once. The call after
-- that gives the request again. The number is below 2^64.
pub generate-exhausted :
    (H : Type 0) (header : H) (body : List ℕ) (n : ℕ)
    → n < u64_mod
    → calls H (suc (suc n)) (record { header = header; yields_left = n; body = body })
      ≡ times H n (header, body) ++ none ∷ some (header, body) ∷ []
unfolding generate
generate-exhausted H header body zero small = refl
generate-exhausted H header body (suc n) small =
    let fewer : sub64 (suc n) 1 ≡ n = omega (arith, small) in
    let more : (suc n == 0) ≡ false = ground arith in
    let rest = generate-exhausted H header body n (omega (arith, small)) in
    rw (more, fewer) (ap (λ l. some (header, body) ∷ l) rest)
