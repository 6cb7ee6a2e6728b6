-- ===== src/Prelude/Cut.antt =====
-- `strings.Contains`, `strings.SplitN` into two parts, and a prefix in any case.
use mathlib.Core.Option.{Option, none, some}
use Prim.Native.Nat.{ℕ, zero, suc, ◌+◌}
use Prim.Native.Char.{Char, code}
use Prim.Native.String.{String, ◌++◌ as ◌<>◌}
use mathlib.Core.Path.{◌≡◌, refl, ap, ◌∙◌}
use mathlib.Core.Logic.{◌≢◌, inl, inr}
use mathlib.Core.Bool.{Bool, true, false, ◌&&◌, ◌||◌}
use mathlib.Core.List.{List, [], ◌∷◌, ◌++◌}
use native.Mathlib.Omega.{arith}
use text.Mathlib.TextLemmas.{nil-append, cons-append}
use csi.Prelude.Lists.{length}
use csi.Prelude.Tests.{leb, nat_eq, if◌then◌else◌, Bool-cases}
use csi.Prelude.Text.{codes}
use csi.Prelude.Split.{lacks}

starts : List ℕ → List ℕ → Bool
starts [] s = true
starts (c ∷ cs) [] = false
starts (c ∷ cs) (d ∷ s) = nat_eq c d && starts cs s

occurs : List ℕ → List ℕ → Bool
unfolding starts
occurs sub [] = starts sub []
occurs sub (c ∷ s) = starts sub (c ∷ s) || occurs sub s

-- `strings.Contains(s, sub)`
unfoldable pub contains : String → String → Bool
unfolding occurs
contains s sub = occurs (codes sub) (codes s)

drop_chars : ℕ → String → String
drop_chars zero s = s
drop_chars (suc n) String.[] = String.[]
drop_chars (suc n) (String.◌∷◌ c s) = drop_chars n s

after_first : Char → Option (String × String) → Option (String × String)
after_first c none = none
after_first c (some (before, after)) = some (String.◌∷◌ c before, after)

-- `strings.SplitN(s, sep, 2)`, if it has two parts: what stands before the first separator, and the rest.
unfoldable pub cut : String → String → Option (String × String)
unfolding drop_chars after_first starts
cut sep String.[] = none
cut sep (String.◌∷◌ c s) =
    let rest = cut sep s in
    if starts (codes sep) (codes (String.◌∷◌ c s))
    then some (String.[], drop_chars (length (codes sep)) (String.◌∷◌ c s))
    else after_first c rest

cut_example : cut "://" "unix:///csi.sock" ≡ some ("unix", "/csi.sock")
unfolding cut
cut_example = refl

-- `strings.ToLower` of one character, as far as it makes ASCII of it: besides the capital letters there are
-- two others, the dotted capital I and the Kelvin sign.
lower_code : ℕ → ℕ
lower_code c =
    if leb b'A' c && leb c b'Z'
    then c + 32
    else if nat_eq c 0x130
    then b'i'
    else if nat_eq c 0x212A
    then b'k'
    else c

lower_codes : List ℕ → List ℕ
unfolding lower_code
lower_codes [] = []
lower_codes (c ∷ cs) = lower_code c ∷ lower_codes cs

-- `strings.HasPrefix(strings.ToLower(s), prefix)`, of a prefix in ASCII
unfoldable pub has_lower_prefix : String → String → Bool
unfolding starts lower_codes
has_lower_prefix s prefix = starts (codes prefix) (lower_codes (codes s))

lower_code-colon : (c : ℕ) → lower_code c ≡ b':' → c ≡ b':'
unfolding lower_code
lower_code-colon c h = ground arith

lower_code-slash : (c : ℕ) → lower_code c ≡ b'/' → c ≡ b'/'
unfolding lower_code
lower_code-slash c h = ground arith

-- A separator after a text that lacks its character is where the text is cut.
pub cut-append :
    (c : Char) (s t : String)
    → lacks (code c) s ≡ true
    → cut (String.◌∷◌ c String.[]) (s <> String.◌∷◌ c t) ≡ some (s, t)
unfolding lacks cut starts after_first drop_chars
cut-append c String.[] t h = rw (nil-append (String.◌∷◌ c t)) (ground arith)
cut-append c (String.◌∷◌ d s) t h =
    rw (cons-append d s (String.◌∷◌ c t)) (ground (arith, cut-append c s t))

-- The codes of "://".
abbrev sep_codes : List ℕ
sep_codes = b':' ∷ b'/' ∷ b'/' ∷ []

starts-lower : (cs : List ℕ) → starts sep_codes (lower_codes cs) ≡ true → starts sep_codes cs ≡ true
unfolding starts lower_codes
starts-lower [] h = h
starts-lower (c ∷ []) h = ground arith
starts-lower (c ∷ d ∷ []) h = ground arith
starts-lower (c ∷ d ∷ e ∷ cs) h =
    ground (arith, lower_code-colon c, lower_code-slash d, lower_code-slash e)

after_first-some : (c : Char) (o : Option (String × String)) → o ≢ none → after_first c o ≢ none
unfolding after_first
after_first-some c none h k = h refl
after_first-some c (some (before, after)) h k = ground arith

cut_step : (c : Char) (s : String) → cut "://" s ≢ none → cut "://" (String.◌∷◌ c s) ≢ none
unfolding cut
cut_step c s h k =
    let later = after_first-some c (cut "://" s) h in
    elim (Bool-cases (starts sep_codes (codes (String.◌∷◌ c s)))) [
      | inl e ↦ ground arith
      | inr e ↦ later (ground arith)
    ]

cut_here : (s : String) → starts sep_codes (codes s) ≡ true → cut "://" s ≢ none
unfolding cut starts
cut_here String.[] h k = ground arith
cut_here (String.◌∷◌ c s) h k = ground arith

-- A text that starts, in lower case, with a text and "://" is cut somewhere.
cut_prefix :
    (front : List ℕ) (s : String)
    → starts (front ++ sep_codes) (lower_codes (codes s)) ≡ true
    → cut "://" s ≢ none
unfolding starts lower_codes
cut_prefix [] s h = cut_here s (starts-lower (codes s) h)
cut_prefix (x ∷ front) String.[] h = ground arith
cut_prefix (x ∷ front) (String.◌∷◌ c s) h = cut_step c s (cut_prefix front s (ground arith))

pub cut-unix_prefix : (s : String) → has_lower_prefix s "unix://" ≡ true → cut "://" s ≢ none
unfolding has_lower_prefix
cut-unix_prefix s h = cut_prefix (codes "unix") s h

pub cut-tcp_prefix : (s : String) → has_lower_prefix s "tcp://" ≡ true → cut "://" s ≢ none
unfolding has_lower_prefix
cut-tcp_prefix s h = cut_prefix (codes "tcp") s h

-- In front of a text.
pub one-append : (c : Char) (t : String) → (String.◌∷◌ c String.[]) <> t ≡ String.◌∷◌ c t
one-append c t = cons-append c String.[] t ∙ ap (String.◌∷◌ c) (nil-append t)
