-- ===== src/Prelude/Parse.antt =====
-- `strconv.ParseUint(s, 10, 32)`, `strconv.ParseInt(s, 10, 32)`, and Go's conversions to int32.
use Prim.Native.Nat.{ℕ, ◌+◌, ◌-◌, ◌*◌, ◌^◌, ◌%◌, ◌<◌}
use Prim.Native.String.{String}
use mathlib.Core.Path.{◌≡◌, refl}
use mathlib.Core.Bool.{◌&&◌}
use mathlib.Core.Option.{Option, none, some}
use mathlib.Core.List.{List, [], ◌∷◌}
use csi.Prelude.Tests.{leb, ltb, nat_eq, if◌then◌else◌}
use csi.Prelude.Text.{codes}
use native.Mathlib.Omega.{arith}
use csi.Prelude.Int.{ℤ, pos, negsuc, sub_ℕ}

unfoldable pub digits : List ℕ → ℕ → Option ℕ
digits [] n = some n
digits (c ∷ cs) n =
    let rest = digits cs (n * 10 + (c - 48)) in if leb 48 c && leb c 57 then rest else none

unfoldable pub below : ℕ → Option ℕ → Option ℕ
below bound none = none
below bound (some n) = if ltb n bound then some n else none

unfoldable pub parse_codes : List ℕ → Option ℕ
unfolding digits below
parse_codes [] = none
parse_codes (c ∷ cs) = below (2 ^ 32) (digits (c ∷ cs) 0)

unfoldable pub parse_uint32 : String → Option ℕ
unfolding parse_codes
parse_uint32 s = parse_codes (codes s)

in_range : ℕ → (ℕ → ℤ) → Option ℕ → Option ℤ
in_range bound f none = none
in_range bound f (some n) = if ltb n bound then some (f n) else none

parse_signed : List ℕ → Option ℤ
unfolding in_range
parse_signed [] = none
parse_signed (c ∷ cs) =
    if nat_eq c b'-'
    then in_range (2 ^ 31 + 1) (sub_ℕ 0) (parse_codes cs)
    else in_range (2 ^ 31) pos (parse_codes (if nat_eq c b'+' then cs else c ∷ cs))

unfoldable pub parse_int32 : String → Option ℤ
unfolding parse_signed parse_codes
parse_int32 s = parse_signed (codes s)

parse_int32_negative : parse_int32 "-12" ≡ some (negsuc 11)
unfolding parse_int32
parse_int32_negative = refl

-- The bits of a number at 32 bits, read as an int32.
abbrev signed32 : ℕ → ℤ
signed32 w = if ltb w (2 ^ 31) then pos w else negsuc (2 ^ 32 - w - 1)

unfoldable pub int32 : ℤ → ℤ
int32 (pos n) = signed32 (n % 2 ^ 32)
int32 (negsuc n) = signed32 (2 ^ 32 - 1 - n % 2 ^ 32)

parse_uint32_example : parse_uint32 "0042" ≡ some 42
unfolding parse_uint32
parse_uint32_example = refl

parse_uint32_range : parse_uint32 "4294967296" ≡ none
unfolding parse_uint32
parse_uint32_range = refl

below-lt : (bound : ℕ) (o : Option ℕ) {n : ℕ} → below bound o ≡ some n → n < bound
unfolding below
below-lt bound none h = ground arith
below-lt bound (some m) h = ground arith

parse_codes-lt : (cs : List ℕ) {n : ℕ} → parse_codes cs ≡ some n → n < 2 ^ 32
unfolding parse_codes
parse_codes-lt [] h = ground arith
parse_codes-lt (c ∷ cs) h = below-lt (2 ^ 32) (digits (c ∷ cs) 0) h

pub parse_uint32-lt : (s : String) {n : ℕ} → parse_uint32 s ≡ some n → n < 2 ^ 32
unfolding parse_uint32
parse_uint32-lt s h = parse_codes-lt (codes s) h
