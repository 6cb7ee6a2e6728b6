-- ===== src/Prelude/Text.antt =====
-- Texts as lists of code points, and Go's order on strings. Go compares bytes; of UTF-8 texts that is
-- the order of the code points.
use Prim.Native.Nat.{ℕ}
use Prim.Native.Char.{code}
use Prim.Native.String.{String}
use mathlib.Core.Path.{◌≡◌, refl, ap₂}
use mathlib.Core.Bool.{Bool, true, false}
use mathlib.Core.List.{List, [], ◌∷◌}
use native.Mathlib.Omega.{arith}
use text.Mathlib.TextEquality.{Char-path}
use csi.Prelude.Tests.{ltb, nat_eq, if◌then◌else◌}

abbrev pub codes : String → List ℕ
codes String.[] = []
codes (String.◌∷◌ c s) = code c ∷ codes s

less_codes : List ℕ → List ℕ → Bool
less_codes xs [] = false
less_codes [] (y ∷ ys) = true
less_codes (x ∷ xs) (y ∷ ys) =
    if ltb x y then true else if nat_eq x y then less_codes xs ys else false

-- `s < t`
unfoldable pub less : String → String → Bool
unfolding less_codes
less s t = less_codes (codes s) (codes t)

codes-injective : (s t : String) → codes s ≡ codes t → s ≡ t
codes-injective String.[] String.[] h = refl
codes-injective String.[] (String.◌∷◌ d t) h = ground arith
codes-injective (String.◌∷◌ c s) String.[] h = ground arith
codes-injective (String.◌∷◌ c s) (String.◌∷◌ d t) h =
    ap₂ String.◌∷◌ (Char-path c d (ground arith)) (codes-injective s t (ground arith))

less_codes_total : (xs ys : List ℕ) → less_codes xs ys ≡ false → less_codes ys xs ≡ false → xs ≡ ys
unfolding less_codes
less_codes_total [] [] h k = refl
less_codes_total [] (y ∷ ys) h k = ground arith
less_codes_total (x ∷ xs) [] h k = ground arith
less_codes_total (x ∷ xs) (y ∷ ys) h k = ground (arith, less_codes_total xs ys)

less_codes_asymm : (xs ys : List ℕ) → less_codes xs ys ≡ true → less_codes ys xs ≡ false
unfolding less_codes
less_codes_asymm [] [] h = ground arith
less_codes_asymm [] (y ∷ ys) h = refl
less_codes_asymm (x ∷ xs) [] h = ground arith
less_codes_asymm (x ∷ xs) (y ∷ ys) h = ground (arith, less_codes_asymm xs ys)

less_codes_trans :
    (xs ys zs : List ℕ)
    → less_codes xs ys ≡ true
    → less_codes zs ys ≡ false
    → less_codes xs zs ≡ true
unfolding less_codes
less_codes_trans xs [] zs h k = ground arith
less_codes_trans [] (y ∷ ys) [] h k = ground arith
less_codes_trans [] (y ∷ ys) (z ∷ zs) h k = refl
less_codes_trans (x ∷ xs) (y ∷ ys) [] h k = ground arith
less_codes_trans (x ∷ xs) (y ∷ ys) (z ∷ zs) h k = ground (arith, less_codes_trans xs ys zs)

pub less_total : (s t : String) → less s t ≡ false → less t s ≡ false → s ≡ t
unfolding less
less_total s t h k = codes-injective s t (less_codes_total (codes s) (codes t) h k)

pub less_asymm : (s t : String) → less s t ≡ true → less t s ≡ false
unfolding less
less_asymm s t h = less_codes_asymm (codes s) (codes t) h

-- If s < t and t ≤ u then s < u.
pub less_trans : (s t u : String) → less s t ≡ true → less u t ≡ false → less s u ≡ true
unfolding less
less_trans s t u h k = less_codes_trans (codes s) (codes t) (codes u) h k
