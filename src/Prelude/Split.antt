-- ===== src/Prelude/Split.antt =====
-- `strings.Split` by one character, `strings.TrimSpace`, and the texts that they cut.
use Prim.Native.Nat.{ℕ}
use Prim.Native.Char.{Char, code}
use Prim.Native.String.{String, ◌++◌ as ◌<>◌}
use mathlib.Core.Path.{◌≡◌, refl}
use mathlib.Core.Bool.{Bool, true, false, ◌&&◌, ◌||◌, not}
use mathlib.Core.List.{List, [], ◌∷◌}
use native.Mathlib.Omega.{arith}
use text.Mathlib.TextLemmas.{nil-append, cons-append}
use csi.Prelude.Tests.{leb, nat_eq, if◌then◌else◌}

-- Put a character in front of the first part.
abbrev pub onto_first : Char → List String → List String
onto_first c [] = String.◌∷◌ c String.[] ∷ []
onto_first c (w ∷ ws) = String.◌∷◌ c w ∷ ws

-- `strings.Split(s, sep)`, of a separator that is one character with the code `sep`.
unfoldable pub split : ℕ → String → List String
split sep String.[] = String.[] ∷ []
split sep (String.◌∷◌ c s) =
    let rest = split sep s in if nat_eq (code c) sep then String.[] ∷ rest else onto_first c rest

-- `unicode.IsSpace`
unfoldable pub is_space : ℕ → Bool
is_space c =
    (leb 9 c && leb c 13)
    || nat_eq c 32
    || nat_eq c 0x85
    || nat_eq c 0xA0
    || nat_eq c 0x1680
    || (leb 0x2000 c && leb c 0x200A)
    || nat_eq c 0x2028
    || nat_eq c 0x2029
    || nat_eq c 0x202F
    || nat_eq c 0x205F
    || nat_eq c 0x3000

trim_left : String → String
trim_left String.[] = String.[]
trim_left (String.◌∷◌ c s) =
    let rest = trim_left s in if is_space (code c) then rest else String.◌∷◌ c s

drop_last_space : Char → String → String
drop_last_space c String.[] = if is_space (code c) then String.[] else String.◌∷◌ c String.[]
drop_last_space c (String.◌∷◌ d s) = String.◌∷◌ c (String.◌∷◌ d s)

trim_right : String → String
unfolding drop_last_space
trim_right String.[] = String.[]
trim_right (String.◌∷◌ c s) = drop_last_space c (trim_right s)

-- `strings.TrimSpace`
unfoldable pub trim_space : String → String
unfolding trim_left trim_right
trim_space s = trim_right (trim_left s)

split_example : split b':' "1:/csi/v1:5K" ≡ "1" ∷ "/csi/v1" ∷ "5K" ∷ []
unfolding split
split_example = refl

trim_example : trim_space " a b  " ≡ "a b"
unfolding trim_space is_space
trim_example = refl

-- No character of the text has the code.
unfoldable pub lacks : ℕ → String → Bool
lacks sep String.[] = true
lacks sep (String.◌∷◌ c s) = not (nat_eq (code c) sep) && lacks sep s

-- No character is white space.
unfoldable pub is_solid : String → Bool
is_solid String.[] = true
is_solid (String.◌∷◌ c s) = not (is_space (code c)) && is_solid s

pub split-lacks : (sep : ℕ) (s : String) → lacks sep s ≡ true → split sep s ≡ s ∷ []
unfolding lacks split
split-lacks sep String.[] h = refl
split-lacks sep (String.◌∷◌ c s) h = ground (arith, split-lacks sep s)

-- A separator after a text that has none cuts exactly there.
pub split-append :
    (sep : ℕ) (c : Char) (s t : String)
    → code c ≡ sep
    → lacks sep s ≡ true
    → split sep (s <> String.◌∷◌ c t) ≡ s ∷ split sep t
unfolding lacks split
split-append sep c String.[] t e h = rw (nil-append (String.◌∷◌ c t)) (ground arith)
split-append sep c (String.◌∷◌ d s) t e h =
    rw (cons-append d s (String.◌∷◌ c t)) (ground (arith, split-append sep c s t e))

trim_left_solid : (s : String) → is_solid s ≡ true → trim_left s ≡ s
unfolding is_solid trim_left
trim_left_solid String.[] h = refl
trim_left_solid (String.◌∷◌ c s) h = ground arith

drop_last_space_solid :
    (c : Char) (s : String) → is_space (code c) ≡ false → drop_last_space c s ≡ String.◌∷◌ c s
unfolding drop_last_space
drop_last_space_solid c String.[] h = rw h
drop_last_space_solid c (String.◌∷◌ d s) h = refl

trim_right_solid : (s : String) → is_solid s ≡ true → trim_right s ≡ s
unfolding is_solid trim_right
trim_right_solid String.[] h = refl
trim_right_solid (String.◌∷◌ c s) h =
    rw (trim_right_solid s (ground arith)) (drop_last_space_solid c s (ground arith))

pub trim_space_solid : (s : String) → is_solid s ≡ true → trim_space s ≡ s
unfolding trim_space
trim_space_solid s h = rw (trim_left_solid s h) (trim_right_solid s h)

pub is_solid-append :
    (s t : String) → is_solid s ≡ true → is_solid t ≡ true → is_solid (s <> t) ≡ true
unfolding is_solid
is_solid-append String.[] t h k = rw (nil-append t) k
is_solid-append (String.◌∷◌ c s) t h k =
    rw (cons-append c s t) (ground (arith, is_solid-append s t))

pub lacks-append :
    (sep : ℕ) (s t : String) → lacks sep s ≡ true → lacks sep t ≡ true → lacks sep (s <> t) ≡ true
unfolding lacks
lacks-append sep String.[] t h k = rw (nil-append t) k
lacks-append sep (String.◌∷◌ c s) t h k =
    rw (cons-append c s t) (ground (arith, lacks-append sep s t))

-- A text with no white space has no character that is white space.
pub lacks-of_is_solid :
    (sep : ℕ) (s : String) → is_space sep ≡ true → is_solid s ≡ true → lacks sep s ≡ true
unfolding lacks is_solid
lacks-of_is_solid sep String.[] h k = refl
lacks-of_is_solid sep (String.◌∷◌ c s) h k = ground (arith, lacks-of_is_solid sep s h)
