-- ===== src/Base/Decimal.antt =====
-- `%lu` and `%d` of `printf` for a number that is not negative: its decimal digits.
use Prim.Native.Nat.{ℕ, zero, suc, ◌+◌, ◌/◌, ◌%◌}
use mathlib.Core.List.{List, [], ◌∷◌}

-- The digits of a number in front of those that were found before. The first argument is fuel: a
-- number that is not zero has at most as many digits as its value.
unfoldable pub digits : ℕ → ℕ → List ℕ → List ℕ
digits zero n found = found
digits (suc fuel) zero found = found
digits (suc fuel) (suc m) found = digits fuel (suc m / 10) ((b'0' + suc m % 10) ∷ found)

unfoldable pub decimal : ℕ → List ℕ
decimal zero = b'0' ∷ []
decimal (suc m) = digits (suc m) (suc m) []
