-- ===== src/Prelude/Sort.antt =====
-- `sort.Strings`, and `sort.Slice` by a string field. (Where two fields are equal, Go leaves the order
-- of the two entries open; here they keep theirs.)
use mathlib.Core.Path.{◌≡◌, refl, ap, ◌∙◌}
use mathlib.Core.Logic.{inl, inr, ∥∥₁_elim, ◌↔◌}
use mathlib.Core.List.{List, [], ◌∷◌, Perm, Permᴰ}
use mathlib.Core.List.Perm
use mathlib.Core.HLevel.{hedberg}
use Prim.Native.Nat.{suc}
use Prim.Native.String.{String}
use native.Mathlib.Omega.{arith}
use csi.Prelude.Tests.{String-discrete, Bool-cases, if◌then◌else◌}
use csi.Prelude.Lists.{length}
use csi.Prelude.Text.{less, less_total, less_asymm, less_trans}

module _ {A : Type 0} (key : A → String) where
  insert : A → List A → List A
  insert a [] = a ∷ []
  insert a (x ∷ xs) = if less (key x) (key a) then x ∷ insert a xs else a ∷ x ∷ xs

  unfoldable pub sort : List A → List A
  unfolding insert
  sort [] = []
  sort (x ∷ xs) = insert x (sort xs)

  insert-perm : (a : A) (xs : List A) → Perm (insert a xs) (a ∷ xs)
  unfolding insert
  insert-perm a [] = Perm.refl (a ∷ [])
  insert-perm a (x ∷ xs) = elim (Bool-cases (less (key x) (key a))) [
    | inl e ↦ rw e (Perm.trans (Perm.cons x (insert-perm a xs)) (Perm.swap a x xs))
    | inr e ↦ rw e (Perm.refl (a ∷ x ∷ xs))
  ]

  pub sort-perm : (xs : List A) → Perm (sort xs) xs
  unfolding sort
  sort-perm [] = Perm.refl []
  sort-perm (x ∷ xs) = Perm.trans (insert-perm x (sort xs)) (Perm.cons x (sort-perm xs))

  length-insert : (a : A) (xs : List A) → length (insert a xs) ≡ suc (length xs)
  unfolding insert
  length-insert a [] = refl
  length-insert a (x ∷ xs) = ground (arith, length-insert a xs)

  pub length-sort : (xs : List A) → length (sort xs) ≡ length xs
  unfolding sort
  length-sort [] = refl
  length-sort (x ∷ xs) = length-insert x (sort xs) ∙ ap suc (length-sort xs)

abbrev pub sort_strings : List String → List String
sort_strings = sort (λ s. s)

insert_comm :
    (a b : String) (xs : List String)
    → insert (λ s. s) a (insert (λ s. s) b xs) ≡ insert (λ s. s) b (insert (λ s. s) a xs)
unfolding insert
insert_comm a b [] = ground (arith, less_total a b, less_asymm a b)
insert_comm a b (x ∷ xs) =
    ground (
      arith,
      insert_comm a b xs,
      less_total a b,
      less_asymm a b,
      less_trans x a b,
      less_trans x b a,
    )

sort-Permᴰ : {xs ys : List String} → Permᴰ xs ys → sort_strings xs ≡ sort_strings ys
unfolding sort
sort-Permᴰ Permᴰ.nil = refl
sort-Permᴰ (Permᴰ.cons e p) = cc (sort-Permᴰ p)
sort-Permᴰ (Permᴰ.swap {a} {b} {l = l} e f) = cc (insert_comm a b (sort_strings l))
sort-Permᴰ (Permᴰ.trans p q) = sort-Permᴰ p ∙ sort-Permᴰ q

strings_set : IsSet (List String)
strings_set = hedberg (hlevel String-discrete)

-- Sorting forgets the order and nothing else.
pub sort-eq_iff : (xs ys : List String) → (sort_strings xs ≡ sort_strings ys) ↔ Perm xs ys
sort-eq_iff xs ys = (
  λ e. Perm.trans (Perm.symm (sort-perm (λ s. s) xs)) (rw e (sort-perm (λ s. s) ys)),
  λ p. ∥∥₁_elim p (strings_set _ _) sort-Permᴰ,
)
