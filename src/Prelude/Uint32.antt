-- ===== src/Prelude/Uint32.antt =====
-- The round trip of `strconv.FormatUint` and `strconv.ParseUint(s, 10, 32)`.
use Prim.Native.Nat.{ℕ, zero, suc, ◌+◌, ◌*◌, ◌/◌, ◌%◌, ◌≤◌, ◌<◌, ◌^◌}
use Prim.Native.String.{String, ◌++◌ as ◌<>◌}
use mathlib.Core.Path.{◌≡◌, sym, ap, ◌∙◌}
use mathlib.Core.Logic.{◌≢◌, inl, inr}
use mathlib.Core.Option.{some}
use mathlib.Core.List.{List, [], ◌∷◌}
use native.Mathlib.Omega.{arith}
use csi.Prelude.Tests.{ltb, Bool-cases}
use csi.Prelude.Text.{codes}
use csi.Prelude.Decimal.{digit, decimal_loop, decimal}
use csi.Prelude.Parse.{digits, below, parse_codes, parse_uint32}
use csi.Prelude.Uint16.{codes-digit}

digits-digit : (d n : ℕ) (cs : List ℕ) → d < 10 → digits ((48 + d) ∷ cs) n ≡ digits cs (n * 10 + d)
unfolding digits
digits-digit d n cs h = ground arith

digits-decimal_loop :
    (fuel n : ℕ) (out : String)
    → n ≤ fuel
    → digits (codes (decimal_loop fuel n out)) 0 ≡ digits (codes out) n
unfolding decimal_loop
digits-decimal_loop zero n out h =
    rw (codes-digit (n % 10) out (omega arith))
      (digits-digit (n % 10) 0 (codes out) (omega arith) ∙ ap (digits (codes out)) (omega arith))
digits-decimal_loop (suc fuel) n out h = elim (Bool-cases (ltb n 10)) [
  | inl e ↦
      rw (e, decimal_loop, codes-digit n out (ground arith))
        (digits-digit n 0 (codes out) (ground arith) ∙ ap (digits (codes out)) (omega arith))
  | inr e ↦
      let rest = digit (n % 10) <> out in
      rw (e, decimal_loop)
        (digits-decimal_loop fuel (n / 10) rest (ground arith)
          ∙ ap (λ cs. digits cs (n / 10)) (codes-digit (n % 10) out (omega arith))
          ∙ digits-digit (n % 10) (n / 10) (codes out) (omega arith)
          ∙ ap (digits (codes out)) (omega arith))
]

-- Some code is first.
abbrev HasFirst : List ℕ → Type 0
HasFirst cs = (c : ℕ) × (rest : List ℕ) × (cs ≡ c ∷ rest)

decimal_loop-HasFirst : (fuel n : ℕ) (out : String) → HasFirst (codes (decimal_loop fuel n out))
unfolding decimal_loop
decimal_loop-HasFirst zero n out = (48 + n % 10, codes out, codes-digit (n % 10) out (omega arith))
decimal_loop-HasFirst (suc fuel) n out = elim (Bool-cases (ltb n 10)) [
  | inl e ↦ rw (e, decimal_loop) (48 + n, codes out, codes-digit n out (ground arith))
  | inr e ↦ rw (e, decimal_loop) (decimal_loop-HasFirst fuel (n / 10) (digit (n % 10) <> out))
]

pub decimal-nonempty : (n : ℕ) → decimal n ≢ ""
unfolding decimal
decimal-nonempty n h =
    let (c, rest, first) = decimal_loop-HasFirst n n "" in
    let none_left : c ∷ rest ≡ [] = sym first ∙ ap codes h in ground arith

parse_codes-digits :
    (cs : List ℕ) (n : ℕ)
    → HasFirst cs
    → digits cs 0 ≡ some n
    → n < 2 ^ 32
    → parse_codes cs ≡ some n
unfolding parse_codes below
parse_codes-digits [] n (c, rest, first) h b = ground arith
parse_codes-digits (c ∷ cs) n first h b = rw h (ground arith)

pub parse_uint32-decimal : (n : ℕ) → n < 2 ^ 32 → parse_uint32 (decimal n) ≡ some n
unfolding parse_uint32 decimal digits
parse_uint32-decimal n b =
    parse_codes-digits (codes (decimal_loop n n "")) n (decimal_loop-HasFirst n n "")
      (digits-decimal_loop n n "" (omega arith)) b
