-- ===== src/Base/Decimal.antt =====
-- Numbers in decimal, as sprintf() of the C library prints them.
use Prim.Native.Nat.{ℕ, zero, suc, ◌+◌, ◌/◌, ◌%◌}
use mathlib.Core.List.{List, [], ◌∷◌, ◌++◌}
use slony1_engine.Base.Int.{ℤ, pos, negsuc}

-- The digits of n, the highest first, given that fuel exceeds their number.
unfoldable pub digits_of : ℕ → ℕ → List ℕ
digits_of zero n = []
digits_of (suc f) n = elim (n / 10) [
  | zero ↦ (b'0' + n % 10) ∷ []
  | suc m ↦ digits_of f (suc m) ++ (b'0' + n % 10) ∷ []
]

unfoldable pub decimal : ℕ → List ℕ
unfolding digits_of
decimal n = digits_of (suc n) n

unfoldable pub decimal_ℤ : ℤ → List ℕ
unfolding decimal
decimal_ℤ (pos n) = decimal n
decimal_ℤ (negsuc n) = b'-' ∷ decimal (suc n)
