-- ===== src/Base/Int.antt =====
-- The `int` that a function of the program returns: a status, a count or a decision.
use Prim.Native.Nat.{ℕ, zero, suc}
use mathlib.Core.Bool.{Bool, true, false}

-- `negsuc n` is -(n + 1).
pub data ℤ : Type 0 where
  pos : ℕ → ℤ
  negsuc : ℕ → ℤ

-- The library calls' and the program's own error status.
abbrev pub minus_one : ℤ
minus_one = negsuc 0

-- `v >= 0`
abbrev pub is_nonneg : ℤ → Bool
is_nonneg (pos n) = true
is_nonneg (negsuc n) = false

-- `v == 1`
abbrev pub is_one : ℤ → Bool
is_one (pos (suc zero)) = true
is_one _ = false

-- `v == 0`
abbrev pub is_zero : ℤ → Bool
is_zero (pos zero) = true
is_zero _ = false

-- `if (v)`
abbrev pub is_true : ℤ → Bool
is_true (pos zero) = false
is_true _ = true
