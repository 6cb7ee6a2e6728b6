-- ===== src/HostPath/Flags.antt =====
-- The values of the flags (pkg/hostpath/flag.go). `resource.ParseQuantity` is a parameter.
use csi.Prelude.{
  String, ◌<>◌, ◌≡◌, refl, ap, ◌∙◌, true, Option, none, some, List, [], ◌∷◌, ◌++◌, map, ◌==◌,
  if◌then◌else◌, arith,
}
use csi.Prelude.Int.{ℤ, pos}
use csi.Prelude.Cut.{cut, cut-append, one-append}
use csi.Prelude.Split.{lacks, split, trim_space}
use csi.Exec.{Result, ok, err, formatted}
use csi.HostPath.Env.{Dict, lookup_or}

-- `m[k] = v`
unfoldable pub set_key : {V : Type 0} → String → V → Dict V → Dict V
set_key k v [] = (k, v) ∷ []
set_key k v ((j, u) ∷ m) = if j == k then (k, v) ∷ m else (j, u) ∷ set_key k v m

module _ (parse_quantity : String → Option ℤ) where
  with_quantity : String → Option ℤ → Dict ℤ → Result (Dict ℤ)
  with_quantity kind none capacity = err formatted
  with_quantity kind (some quantity) capacity = ok (set_key kind quantity capacity)

  with_parts : Option (String × String) → Dict ℤ → Result (Dict ℤ)
  unfolding with_quantity
  with_parts none capacity = err formatted
  with_parts (some (kind, size)) capacity = with_quantity kind (parse_quantity size) capacity

  -- `Capacity.Set`
  unfoldable pub set_capacity : String → Dict ℤ → Result (Dict ℤ)
  unfolding with_parts
  set_capacity arg capacity = with_parts (cut "=" arg) capacity

-- `StringArray.Set`
unfoldable pub add_names : String → List String → List String
add_names value names = names ++ map trim_space (split b',' value)

pub lookup-set_key :
    {V : Type 0} (zero_value v : V) (k j : String) (m : Dict V)
    → lookup_or zero_value j (set_key k v m) ≡ (if k == j then v else lookup_or zero_value j m)
unfolding lookup_or set_key
lookup-set_key zero_value v k j [] = refl
lookup-set_key zero_value v k j ((i, u) ∷ m) = ground (arith, lookup-set_key zero_value v k j m)

-- A capacity flag of the form kind=size, where the kind has no equals sign and the size is a
-- quantity, is accepted, and sets the capacity of that kind and of no other.
pub lookup-set_capacity :
    (parse_quantity : String → Option ℤ) (kind size : String) (q : ℤ) (capacity : Dict ℤ)
    → lacks b'=' kind ≡ true
    → parse_quantity size ≡ some q
    → (after : Dict ℤ) × (set_capacity parse_quantity (kind <> ("=" <> size)) capacity ≡ ok after)
      × ((j : String)
          → lookup_or (pos 0) j after ≡ (if kind == j then q else lookup_or (pos 0) j capacity))
unfolding set_capacity with_parts with_quantity
lookup-set_capacity parse_quantity kind size q capacity clear parsed =
    let parts : cut "=" (kind <> ("=" <> size)) ≡ some (kind, size) =
      ap (λ t. cut "=" (kind <> t)) (one-append "=" size) ∙ cut-append "=" kind size clear in
    (
      set_key kind q capacity,
      ap (λ o. with_parts parse_quantity o capacity) parts
          ∙ ap (λ o. with_quantity parse_quantity kind o capacity) parsed,
      λ j. lookup-set_key (pos 0) q kind j capacity,
    )
