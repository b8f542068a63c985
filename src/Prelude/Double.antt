-- ===== src/Prelude/Double.antt =====
-- The C++ double: its operations are a parameter.
use Prim.Native.Nat.{ℕ}
use mathlib.Core.Bool.{Bool}

pub record Ops : Type 1 where
  pub Double : Type 0
  pub of_nat : ℕ → Double  -- the value of a non-negative integer
  pub add : Double → Double → Double
  pub sub : Double → Double → Double
  pub mul : Double → Double → Double
  pub div : Double → Double → Double
  pub sqrt : Double → Double
  pub floor : Double → Double
  pub ceil : Double → Double
  pub round : Double → Double
  pub lt : Double → Double → Bool
  pub to_int64 : Double → ℕ  -- static_cast<int64_t>, as a bit pattern
