-- ===== src/State/EqualIds.antt =====
-- `equalIDs` of pkg/state/state.go, which sorts both slices in place and compares them.
use csi.Prelude.{
  String, ◌≡◌, refl, ◌↔◌, ap, sym, ◌∙◌, inl, inr, Bool-cases, Bool, true, false, List, [], ◌∷◌,
  ◌==◌, nat_eq, length, arith, if◌then◌else◌,
}
use mathlib.Core.List.{Perm}
use mathlib.Core.List.Perm
use csi.Prelude.Sort.{sort_strings, sort-eq_iff, length-sort, sort-perm}

-- `for i, v := range a { if v != b[i] { return false } }`, on slices of one length.
same_items : List String → List String → Bool
same_items [] [] = true
same_items [] (y ∷ ys) = true
same_items (x ∷ xs) [] = false
same_items (x ∷ xs) (y ∷ ys) = if x == y then same_items xs ys else false

pub record Compared : Type 0 where
  pub equal : Bool
  pub left : List String
  pub right : List String

-- The answer, and what the two slices hold afterwards.
unfoldable pub equal_ids : List String → List String → Compared
unfolding same_items
equal_ids a b =
    if nat_eq (length a) (length b)
    then record {
      equal = same_items (sort_strings a) (sort_strings b);
      left = sort_strings a;
      right = sort_strings b;
    }
    else record { equal = false; left = a; right = b }

same_items_iff :
    (xs ys : List String) → length xs ≡ length ys → (same_items xs ys ≡ true) ↔ (xs ≡ ys)
unfolding same_items
same_items_iff [] [] h = (λ _. refl, λ _. refl)
same_items_iff [] (y ∷ ys) h = absurd (omega arith)
same_items_iff (x ∷ xs) [] h = absurd (omega arith)
same_items_iff (x ∷ xs) (y ∷ ys) h = ground (arith, same_items_iff xs ys)

same_items-sort :
    (a b : List String)
    → length a ≡ length b
    → (same_items (sort_strings a) (sort_strings b) ≡ true) ↔ Perm a b
same_items-sort a b h =
    let lengths = length-sort (λ (s : String). s) a ∙ h ∙ sym (length-sort (λ (s : String). s) b) in
    let (to, from) = same_items_iff (sort_strings a) (sort_strings b) lengths in
    let (to', from') = sort-eq_iff a b in (λ e. to' (to e), λ p. from (from' p))

length-perm : (a b : List String) → Perm a b → length a ≡ length b
length-perm a b p =
    sym (length-sort (λ s. s) a) ∙ ap length ((sort-eq_iff a b).1 p) ∙ length-sort (λ s. s) b

equal_ids_iff : (a b : List String) → ((equal_ids a b).equal ≡ true) ↔ Perm a b
unfolding equal_ids
equal_ids_iff a b = elim (Bool-cases (nat_eq (length a) (length b))) [
  | inl e ↦ rw e (same_items-sort a b (ground arith))
  | inr e ↦ rw e (λ h. cc, λ p. ground (arith, length-perm a b p))
]

equal_ids-perm : (a b : List String) → Perm (equal_ids a b).left a × Perm (equal_ids a b).right b
unfolding equal_ids
equal_ids-perm a b = elim (Bool-cases (nat_eq (length a) (length b))) [
  | inl e ↦ rw e (sort-perm (λ s. s) a, sort-perm (λ s. s) b)
  | inr e ↦ rw e (Perm.refl a, Perm.refl b)
]

-- The answer of equalIDs is true exactly when the two slices hold the same IDs, each as often, and
-- neither slice gains or loses an ID.
pub equal_ids_lem :
    (a b : List String)
    → (((equal_ids a b).equal ≡ true) ↔ Perm a b)
      × Perm (equal_ids a b).left a
      × Perm (equal_ids a b).right b
equal_ids_lem a b = let (l, r) = equal_ids-perm a b in (equal_ids_iff a b, l, r)
