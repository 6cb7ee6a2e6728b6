-- ===== src/Prelude/Decimal.antt =====
-- The decimal texts of strconv and fmt's `%d`.
use Prim.Native.Nat.{ℕ, zero, suc, ◌/◌, ◌%◌}
use Prim.Native.String.{String, ◌++◌ as ◌<>◌}
use mathlib.Core.Path.{◌≡◌, refl}
use mathlib.Core.Bool.{true, false}
use csi.Prelude.Tests.{ltb}
use csi.Prelude.Int.{ℤ, pos, negsuc}

unfoldable pub digit : ℕ → String
digit zero = "0"
digit (suc zero) = "1"
digit (suc (suc zero)) = "2"
digit (suc (suc (suc zero))) = "3"
digit (suc (suc (suc (suc zero)))) = "4"
digit (suc (suc (suc (suc (suc zero))))) = "5"
digit (suc (suc (suc (suc (suc (suc zero)))))) = "6"
digit (suc (suc (suc (suc (suc (suc (suc zero))))))) = "7"
digit (suc (suc (suc (suc (suc (suc (suc (suc zero)))))))) = "8"
digit _ = "9"

-- The last digit is put in front of what has been written. Each round takes off a digit, so a fuel of
-- `n` rounds is enough for `n`.
unfoldable pub decimal_loop : ℕ → ℕ → String → String
decimal_loop zero n out = digit (n % 10) <> out
decimal_loop (suc fuel) n out = elim (ltb n 10) [
  | true ↦ digit n <> out
  | false ↦ decimal_loop fuel (n / 10) (digit (n % 10) <> out)
]

unfoldable pub decimal : ℕ → String
unfolding decimal_loop digit
decimal n = decimal_loop n n ""

unfoldable pub decimal_ℤ : ℤ → String
unfolding decimal
decimal_ℤ (pos n) = decimal n
decimal_ℤ (negsuc n) = "-" <> decimal (suc n)

decimal_ℤ_example : decimal_ℤ (negsuc 1049) ≡ "-1050"
unfolding decimal_ℤ
decimal_ℤ_example = refl
