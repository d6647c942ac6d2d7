-- ===== src/Base/Int.antt =====
-- Python's integers.
use Prim.Native.Nat.{ℕ, zero, suc}
use mathlib.Core.Bool.{Bool, true, false}

-- `negsuc n` is -(n + 1)
pub data ℤ : Type 0 where
  pos : ℕ → ℤ
  negsuc : ℕ → ℤ

-- `z <= 0`
abbrev pub is_non_positive : ℤ → Bool
is_non_positive (pos zero) = true
is_non_positive (pos (suc n)) = false
is_non_positive (negsuc n) = true
