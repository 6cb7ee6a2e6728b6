-- ===== src/Xfs/Units.antt =====
-- `ConvertBytesToString` of pkg/xfs/utils.go, and the conversion of an int64 to a float64 that its
-- callers make.
pub mod Bounds
use csi.Prelude.{
  ℕ, zero, suc, ◌+◌, ◌*◌, ◌/◌, ◌%◌, ◌-◌, ◌^◌, String, ◌<>◌, ◌≡◌, refl, true, false, List, [], ◌∷◌,
  ltb, leb, nat_eq, if◌then◌else◌,
}
use csi.Prelude.Int.{ℤ, pos, negsuc}
use csi.Prelude.Decimal.{decimal, decimal_ℤ}

-- The multiple of `m` that is nearest to `n`; of two that are as near, the even one.
round_to : ℕ → ℕ → ℕ
round_to m n =
    let q = n / m in
    let r = n % m in
    if ltb (2 * r) m
    then q * m
    else if ltb m (2 * r)
    then (q + 1) * m
    else if nat_eq (q % 2) 0
    then q * m
    else (q + 1) * m

-- 53 binary digits are kept. A magnitude of an int64 has at most 64, so 11 rounds are enough.
round_53 : ℕ → ℕ → ℕ → ℕ
unfolding round_to
round_53 zero unit n = round_to unit n
round_53 (suc rounds) unit n = elim (ltb n (2 ^ 53 * unit)) [
  | true ↦ round_to unit n
  | false ↦ round_53 rounds (2 * unit) n
]

-- `float64(x)`, an integer again.
unfoldable pub float64 : ℤ → ℤ
unfolding round_53
float64 (pos n) = pos (round_53 11 1 n)
float64 (negsuc n) = elim (round_53 11 1 (suc n)) [ zero ↦ pos 0 | suc m ↦ negsuc m ]

-- `int64(x)`. Go leaves the answer for a number out of range to the platform: on amd64 it is the smallest
-- int64.
unfoldable pub to_int64 : ℤ → ℤ
to_int64 (pos n) = if ltb n (2 ^ 63) then pos n else negsuc (2 ^ 63 - 1)
to_int64 (negsuc n) = if ltb n (2 ^ 63) then negsuc n else negsuc (2 ^ 63 - 1)

-- `fmt.Sprintf("%d%s", …)`
unfoldable pub write_with : ℤ → String → String
unfolding to_int64 decimal_ℤ
write_with bytes unit = decimal_ℤ (to_int64 bytes) <> unit

-- The loop over the units. The division by 1024 is exact in binary floating point and the fraction is
-- only cut off at the end, where it gives the same as cutting it off in every round.
unfoldable pub scale : List String → String → ℕ → String
unfolding write_with
scale [] unit n = write_with (pos n) unit
scale (next ∷ units) unit n =
    let smaller = scale units next (n / 1024) in
    if leb 1024 n then smaller else write_with (pos n) unit

abbrev pub larger_units : List String
larger_units = "K" ∷ "M" ∷ "G" ∷ "T" ∷ "P" ∷ "E" ∷ []

unfoldable pub convert_bytes_to_string : ℤ → String
unfolding scale write_with
convert_bytes_to_string (pos n) = scale larger_units "B" n
convert_bytes_to_string (negsuc n) = write_with (negsuc n) "B"

overflow_example : convert_bytes_to_string (pos (2 ^ 123)) ≡ "-9223372036854775808E"
unfolding convert_bytes_to_string
overflow_example = refl

convert_example : convert_bytes_to_string (float64 (pos 1610612736)) ≡ "1G"
unfolding convert_bytes_to_string float64
convert_example = refl

float64_example : float64 (pos 9223372036854775807) ≡ pos (2 ^ 63)
unfolding float64
float64_example = refl
