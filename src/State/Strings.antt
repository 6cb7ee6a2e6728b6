-- ===== src/State/Strings.antt =====
-- `Strings` of pkg/state/strings.go, an ordered set kept as a slice.
use csi.Prelude.{
  length, ◌≤◌, String, ◌≡◌, ◌≢◌, refl, Bool, true, false, List, [], ◌∷◌, ◌++◌, ◌||◌, ◌==◌, arith,
  if◌then◌else◌,
}

abbrev pub Strings : Type 0
Strings = List String

unfoldable pub add : String → Strings → Strings
add str s = s ++ (str ∷ [])

unfoldable pub has : String → Strings → Bool
has str [] = false
has str (str2 ∷ s) = if str == str2 then true else has str s

unfoldable pub is_empty : Strings → Bool
is_empty [] = true
is_empty (_ ∷ _) = false

-- The first occurrence goes.
unfoldable pub remove : String → Strings → Strings
remove str [] = []
remove str (str2 ∷ s) = if str == str2 then s else str2 ∷ remove str s

-- Only the first occurrence goes.
pub remove-first :
    (a : String) (s s' : Strings) → has a s ≡ false → remove a (s ++ (a ∷ s')) ≡ s ++ s'
unfolding has remove
remove-first a [] s' h = ground arith
remove-first a (x ∷ s) s' h = ground (arith, remove-first a s s')

pub has-add : (a b : String) (s : Strings) → has a (add b s) ≡ (has a s || a == b)
unfolding has add
has-add a b [] = ground arith
has-add a b (x ∷ s) = ground (arith, has-add a b s)

-- A string that was not there is removed again without a trace.
pub remove-add : (a : String) (s : Strings) → has a s ≡ false → remove a (add a s) ≡ s
unfolding has add remove
remove-add a [] h = ground arith
remove-add a (x ∷ s) h = ground (arith, remove-add a s)

-- Removing one string leaves the others.
pub has-remove_ne : (a b : String) (s : Strings) → a ≢ b → has a (remove b s) ≡ has a s
unfolding has remove
has-remove_ne a b [] h = refl
has-remove_ne a b (x ∷ s) h = ground (arith, has-remove_ne a b s)

pub is_empty-add : (a : String) (s : Strings) → is_empty (add a s) ≡ false
unfolding is_empty add
is_empty-add a [] = refl
is_empty-add a (x ∷ s) = refl

pub has-of_is_empty : (a : String) (s : Strings) → is_empty s ≡ true → has a s ≡ false
unfolding is_empty has
has-of_is_empty a [] h = refl
has-of_is_empty a (x ∷ s) h = ground arith

pub length-add_of_is_empty : (a : String) (s : Strings) → is_empty s ≡ true → length (add a s) ≡ 1
unfolding is_empty add
length-add_of_is_empty a [] h = refl
length-add_of_is_empty a (x ∷ s) h = ground arith

pub length-remove : (a : String) (s : Strings) → length (remove a s) ≤ length s
unfolding remove
length-remove a [] = omega arith
length-remove a (x ∷ s) = ground (arith, length-remove a s)

pub is_empty-remove : (a : String) (s : Strings) → is_empty s ≡ true → is_empty (remove a s) ≡ true
unfolding is_empty remove
is_empty-remove a [] h = refl
is_empty-remove a (x ∷ s) h = ground arith

pub remove_absent : (a : String) (s : Strings) → has a s ≡ false → remove a s ≡ s
unfolding has remove
remove_absent a [] h = refl
remove_absent a (x ∷ s) h = ground (arith, remove_absent a s)
