-- ===== src/Xfs/Ids.antt =====
-- `generateID` of pkg/xfs/utils.go, of the IDs that are in use. An ID is a uint16.
pub mod Free
use csi.Prelude.{
  ℕ, zero, suc, ◌+◌, ◌-◌, ◌%◌, ◌^◌, ◌≤◌, ◌<◌, ◌≡◌, ◌≢◌, refl, Bool, true, false, ◌||◌, Option, none,
  some, List, [], ◌∷◌, nat_eq, arith, if◌then◌else◌, Bool-cases, inl, inr,
}

abbrev pub reserved_export_id : ℕ
reserved_export_id = 152

-- `ids[id]`
unfoldable pub in_use : ℕ → List ℕ → Bool
in_use id [] = false
in_use id (x ∷ xs) = if nat_eq x id then true else in_use id xs

-- The loop, which goes on where the ID is in use or the reserved one. A uint16 is never above
-- `math.MaxUint16`, so the condition of the source always holds, and `id++` wraps. `none` is a loop
-- that is not over after the given number of rounds.
unfoldable pub next_id : ℕ → ℕ → List ℕ → Option ℕ
next_id zero id ids = none
next_id (suc rounds) id ids =
    let rest = next_id rounds ((id + 1) % 2 ^ 16) ids in
    if in_use id ids || nat_eq id reserved_export_id then rest else some id

unfoldable pub generate_id : ℕ → List ℕ → Option ℕ
unfolding next_id
generate_id rounds ids = next_id rounds 1 ids

-- What makes an ID good to give away.
abbrev pub IsFresh : ℕ → List ℕ → Type 0
IsFresh id ids = (in_use id ids ≡ false) × (id ≢ reserved_export_id)

pub next_id-least :
    (rounds id j : ℕ) (ids : List ℕ)
    → id ≤ j
    → j < 2 ^ 16
    → j - id < rounds
    → IsFresh j ids
    → (i : ℕ) × (next_id rounds id ids ≡ some i) × (id ≤ i) × (i ≤ j) × IsFresh i ids
unfolding next_id
next_id-least zero id j ids low high enough fresh = absurd (omega arith)
next_id-least (suc rounds) id j ids low high enough fresh =
    elim (Bool-cases (in_use id ids || nat_eq id reserved_export_id)) [
      | inl skip ↦
          let later : id < j = ground arith in
          let (i, found, above, below, good) =
            next_id-least rounds (id + 1) j ids (omega arith) high (omega arith) fresh in
          let next : (id + 1) % 2 ^ 16 ≡ id + 1 = omega arith in
          (i, rw (skip, next) found, omega arith, below, good)
      | inr stop ↦ (id, rw stop refl, omega arith, low, ground arith)
    ]

-- If some ID from 1 to 65535 is neither in use nor reserved, the loop of generateID ends within
-- 65535 rounds, with an ID in that range that is neither, and no larger than the given one.
pub generate_id-IsFresh :
    (j : ℕ) (ids : List ℕ)
    → 1 ≤ j
    → j < 2 ^ 16
    → IsFresh j ids
    → (i : ℕ) × (generate_id 65535 ids ≡ some i) × (1 ≤ i) × (i ≤ j) × IsFresh i ids
unfolding generate_id
generate_id-IsFresh j ids low high fresh = next_id-least 65535 1 j ids low high (omega arith) fresh

-- The loop of generateID, if it ends, ends with a uint16 that is neither in use nor reserved.
pub next_id-IsFresh :
    (rounds id i : ℕ) (ids : List ℕ)
    → id < 2 ^ 16
    → next_id rounds id ids ≡ some i
    → (i < 2 ^ 16) × IsFresh i ids
unfolding next_id
next_id-IsFresh zero id i ids range h = ground arith
next_id-IsFresh (suc rounds) id i ids range h =
    ground (arith, next_id-IsFresh rounds ((id + 1) % 2 ^ 16) i ids (omega arith))

next_id-endless :
    (rounds id : ℕ) (ids : List ℕ)
    → id < 2 ^ 16
    → ((i : ℕ) → i < 2 ^ 16 → i ≢ reserved_export_id → in_use i ids ≡ true)
    → next_id rounds id ids ≡ none
unfolding next_id
next_id-endless zero id ids range full = refl
next_id-endless (suc rounds) id ids range full =
    ground (arith, full id range, next_id-endless rounds ((id + 1) % 2 ^ 16) ids (omega arith) full)

-- If every ID but the reserved one is in use, the loop of generateID never ends.
pub generate_id-endless :
    (rounds : ℕ) (ids : List ℕ)
    → ((i : ℕ) → i < 2 ^ 16 → i ≢ reserved_export_id → in_use i ids ≡ true)
    → generate_id rounds ids ≡ none
unfolding generate_id
generate_id-endless rounds ids full = next_id-endless rounds 1 ids (omega arith) full
