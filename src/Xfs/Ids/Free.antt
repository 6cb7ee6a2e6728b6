-- ===== src/Xfs/Ids/Free.antt =====
-- That an ID is left: the pigeonhole principle for the IDs that `generateID` of pkg/xfs/utils.go passes.
use csi.Prelude.{
  ℕ, zero, suc, ◌+◌, ◌^◌, ◌≤◌, ◌<◌, ◌≡◌, ◌≢◌, refl, true, false, some, List, [], ◌∷◌, length,
  nat_eq, arith, if◌then◌else◌, Bool-cases, inl, inr,
}
use csi.Xfs.Ids.{reserved_export_id, in_use, generate_id, next_id-least, IsFresh}

without : ℕ → List ℕ → List ℕ
without x [] = []
without x (y ∷ ys) = if nat_eq y x then without x ys else y ∷ without x ys

length-without_le : (x : ℕ) (ys : List ℕ) → length (without x ys) ≤ length ys
unfolding without
length-without_le x [] = omega arith
length-without_le x (y ∷ ys) = ground (arith, length-without_le x ys)

length-without : (x : ℕ) (ys : List ℕ) → in_use x ys ≡ true → length (without x ys) < length ys
unfolding without in_use
length-without x [] h = ground arith
length-without x (y ∷ ys) h = ground (arith, length-without x ys, length-without_le x ys)

in_use-without :
    (x j : ℕ) (ys : List ℕ) → j ≢ x → in_use j (without x ys) ≡ false → in_use j ys ≡ false
unfolding without in_use
in_use-without x j [] ne h = refl
in_use-without x j (y ∷ ys) ne h = ground (arith, in_use-without x j ys)

-- Of one number more than there are in a list, from any number on, one is not in it.
free :
    (n low : ℕ) (xs : List ℕ)
    → length xs ≤ n
    → (j : ℕ) × (low ≤ j) × (j ≤ low + n) × (in_use j xs ≡ false)
unfolding in_use
free zero low [] h = (low, omega arith, omega arith, refl)
free zero low (x ∷ xs) h = absurd (omega arith)
free (suc n) low xs h = elim (Bool-cases (in_use low xs)) [
  | inl used ↦
      let (j, above, below, out) =
        free n (low + 1) (without low xs) (ground (arith, length-without low xs used)) in
      (j, omega arith, omega arith, in_use-without low j xs (λ e. ground arith) out)
  | inr out ↦ (low, omega arith, omega arith, out)
]

pub has_free :
    (ids : List ℕ) → length ids + 2 < 2 ^ 16 → (j : ℕ) × (1 ≤ j) × (j < 2 ^ 16) × IsFresh j ids
unfolding in_use
has_free ids few =
    let (j, above, below, out) = free (length ids + 1) 1 (reserved_export_id ∷ ids) (omega arith) in
    (j, above, omega arith, ground arith)

-- With fewer than 65534 IDs in use, generateID ends, with an ID from 1 to 65535 that is neither in
-- use nor reserved.
pub generate_id-ends :
    (ids : List ℕ)
    → length ids + 2 < 2 ^ 16
    → (i : ℕ) × (generate_id 65536 ids ≡ some i) × (1 ≤ i) × (i < 2 ^ 16) × IsFresh i ids
unfolding generate_id
generate_id-ends ids few =
    let (j, low, high, fresh) = has_free ids few in
    let (i, found, above, below, good) = next_id-least 65536 1 j ids low high (omega arith) fresh in
    (i, found, above, omega arith, good)
