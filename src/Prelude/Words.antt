-- ===== src/Prelude/Words.antt =====
-- Machine words as native numbers, with the wrap-around written out. An int64_t is kept as its
-- bit pattern; `is_positive64` is the signed test `0 < x`.
use Prim.Native.Nat.{ℕ, ◌+◌, ◌-◌, ◌%◌, ◌^◌}
use mathlib.Core.Bool.{Bool, ◌&&◌}
use sortie.Prelude.Tests.{ltb}

abbrev pub u64_mod : ℕ
u64_mod = 2 ^ 64

abbrev pub i64_mod : ℕ
i64_mod = 2 ^ 63

abbrev pub add64 : ℕ → ℕ → ℕ
add64 a b = (a + b) % u64_mod

-- `-` on ℕ stops at 0, so the modulus is added first.
abbrev pub sub64 : ℕ → ℕ → ℕ
sub64 a b = (a + u64_mod - b) % u64_mod

abbrev pub is_positive64 : ℕ → Bool
is_positive64 w = ltb 0 w && ltb w i64_mod

abbrev pub u32_mod : ℕ
u32_mod = 2 ^ 32

abbrev pub add32 : ℕ → ℕ → ℕ
add32 a b = (a + b) % u32_mod

abbrev pub sub32 : ℕ → ℕ → ℕ
sub32 a b = (a + u32_mod - b) % u32_mod
