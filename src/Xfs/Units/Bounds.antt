-- ===== src/Xfs/Units/Bounds.antt =====
-- How much `ConvertBytesToString` of pkg/xfs/utils.go loses.
use native.Mathlib.Nat.{mul_assoc}
use csi.Prelude.{
  ℕ, zero, suc, ◌+◌, ◌*◌, ◌/◌, ◌^◌, ◌≤◌, ◌<◌, String, ◌<>◌, ◌≡◌, refl, subst, some, List, [], ◌∷◌,
  leb, length, get_elem?, arith, Bool-cases, inl, inr,
}
use csi.Prelude.Int.{pos}
use csi.Prelude.Decimal.{decimal, decimal_ℤ}
use csi.Xfs.Units.{to_int64, write_with, scale, larger_units, convert_bytes_to_string}

-- The bytes in the unit of an index: 1024 to that power.
abbrev pub bytes_in : ℕ → ℕ
bytes_in zero = 1
bytes_in (suc k) = bytes_in k * 1024

-- The text is a number with the unit of an index, and what it stands for is at most `n`, by less than one
-- such unit; the number is below 1024 but for the last unit, and not zero unless `n` is.
abbrev pub Written : List String → ℕ → String → Type 0
Written units n text =
    (k : ℕ) × (d : ℕ) × (unit : String) × (get_elem? units k ≡ some unit)
    × (text ≡ decimal d <> unit)
    × (d * bytes_in k ≤ n)
    × (n < d * bytes_in k + bytes_in k)
    × (suc k < length units → d < 1024)
    × (1 ≤ n → 1 ≤ d)

write_with-pos : (n : ℕ) (unit : String) → n < 2 ^ 63 → write_with (pos n) unit ≡ decimal n <> unit
unfolding write_with to_int64 decimal_ℤ
write_with-pos n unit h = ground arith

scale-Written :
    (units : List String) (unit : String) (n : ℕ)
    → n < 2 ^ 63 * bytes_in (length units)
    → Written (unit ∷ units) n (scale units unit n)
unfolding scale
scale-Written [] unit n fits = (
  0,
  n,
  unit,
  refl,
  write_with-pos n unit (omega arith),
  omega arith,
  omega arith,
  (λ h. absurd (omega arith)),
  λ h. h,
)
scale-Written (next ∷ units) unit n fits = elim (Bool-cases (leb 1024 n)) [
  | inl e ↦
      let (k, d, u, found, text, low, high, small, some_left) =
        scale-Written units next (n / 1024) (omega arith) in
      let same = mul_assoc d (bytes_in k) 1024 in
      let large : 1024 ≤ n = ground arith in
      let p = d * bytes_in k in
      let below : p * 1024 ≤ n = omega arith in
      let above : n < p * 1024 + bytes_in k * 1024 = omega arith in
      (
        suc k,
        d,
        u,
        found,
        rw (scale, e) text,
        subst (λ x. x ≤ n) same below,
        subst (λ x. n < x + bytes_in k * 1024) same above,
        (λ h. small (omega arith)),
        λ h. some_left (omega arith),
      )
  | inr e ↦ (
    0,
    n,
    unit,
    refl,
    rw (scale, e) (write_with-pos n unit (ground arith)),
    omega arith,
    omega arith,
    (λ h. ground arith),
    λ h. h,
  )
]

-- ConvertBytesToString of a number below 2¹²³ that is not negative and needs no rounding to
-- float64 writes a whole number and the unit of a power of 1024. Together they stand for at most
-- that number, and for less than one such unit less; the number is below 1024 unless the unit is
-- the last one, and not zero unless what is written is.
pub convert_bytes_to_string-Written :
    (n : ℕ) → n < 2 ^ 123 → Written ("B" ∷ larger_units) n (convert_bytes_to_string (pos n))
unfolding convert_bytes_to_string
convert_bytes_to_string-Written n h = scale-Written larger_units "B" n h
