-- ===== src/Base/Measures.antt =====
-- Real numbers that the program compares with a constant: `value >= minimum`, for a minimum in hundredths.
use Prim.Native.Nat.{ℕ}
use mathlib.Core.Bool.{Bool}

pub record Metrics : Type 1 where
  pub Number : Type 0
  pub at_least : Number → ℕ → Bool
