-- ===== src/Prelude/Hex.antt =====
-- The two hexadecimal functions of absl that the clients call, as parameters.
use Prim.Native.Nat.{ℕ}
use mathlib.Core.Option.{Option, some}
use mathlib.Core.List.{List}
use mathlib.Core.Path.{◌≡◌}
use sortie.Prelude.Lists.{length}

-- absl::StrFormat with "%016x", and absl::SimpleHexAtoi.
pub record Hex : Type 0 where
  pub format_016x : ℕ → List ℕ
  pub hex_atoi : List ℕ → Option ℕ

-- The documented behaviour of the two functions of absl on one 64-bit number: sixteen digits, that
-- are read back.
pub record ReadsBack (hex : Hex) (sequence : ℕ) : Type 0 where
  pub digits : length (hex.format_016x sequence) ≡ 16
  pub reads : hex.hex_atoi (hex.format_016x sequence) ≡ some sequence
