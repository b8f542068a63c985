-- ===== src/BackendName/Examples.antt =====
-- Names of backends.
use sortie.Prelude.{ℕ, ◌+◌, ◌≡◌, refl, ◌&&◌, List, [], ◌∷◌, arith, leb, if◌then◌else◌, All}
use sortie.BackendName.{sanitize_backend_name, sanitize_backend_name_twice, IsAllowed}

-- ASCII letters in lower case.
abbrev to_lower : ℕ → ℕ
to_lower c = if leb 65 c && leb c 90 then c + 32 else c

to_lower_fixes : (c : ℕ) → IsAllowed c → to_lower c ≡ c
to_lower_fixes c h = ground arith

-- "-My Svc!"
abbrev name : List ℕ
name = 45 ∷ 77 ∷ 121 ∷ 32 ∷ 83 ∷ 118 ∷ 99 ∷ 33 ∷ []

-- "my_svc"
clean_name : sanitize_backend_name to_lower name ≡ 109 ∷ 121 ∷ 95 ∷ 115 ∷ 118 ∷ 99 ∷ []
unfolding sanitize_backend_name
clean_name = refl

sanitize_backend_name_twice_example :
    let clean = sanitize_backend_name to_lower name in
    All IsAllowed clean × (sanitize_backend_name to_lower clean ≡ clean)
sanitize_backend_name_twice_example = sanitize_backend_name_twice to_lower to_lower_fixes name
