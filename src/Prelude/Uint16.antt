-- ===== src/Prelude/Uint16.antt =====
-- `strconv.ParseUint(s, 10, 16)` where the error is dropped, and its round trip with
-- `strconv.FormatUint`.
use Prim.Native.Nat.{ℕ, zero, suc, ◌+◌, ◌-◌, ◌*◌, ◌/◌, ◌%◌, ◌≤◌, ◌<◌, ◌^◌}
use Prim.Native.Char.{code}
use Prim.Native.String.{String, ◌++◌ as ◌<>◌}
use mathlib.Core.Path.{◌≡◌, refl, ap, ◌∙◌}
use mathlib.Core.Logic.{inl, inr}
use mathlib.Core.Bool.{true, ◌&&◌}
use mathlib.Core.List.{List, [], ◌∷◌, ◌++◌}
use native.Mathlib.Omega.{arith}
use text.Mathlib.TextLemmas.{nil-append, cons-append}
use csi.Prelude.Tests.{ltb, leb, if◌then◌else◌, Bool-cases}
use csi.Prelude.Text.{codes}
use csi.Prelude.Decimal.{digit, decimal_loop, decimal}
use csi.Prelude.Split.{is_solid, is_space, lacks, is_solid-append, lacks-append}

-- From left to right: 0 at a character that is no digit, and the largest number where the digits so far
-- are out of range.
digits16 : List ℕ → ℕ → ℕ
digits16 [] n = n
digits16 (c ∷ cs) n =
    let m = n * 10 + (c - 48) in
    let rest = digits16 cs m in
    if leb 48 c && leb c 57 then (if leb m 65535 then rest else 65535) else 0

-- The value beside the error; no digits are an error too.
unfoldable pub parse_uint16 : String → ℕ
unfolding digits16
parse_uint16 s = digits16 (codes s) 0

digits16-lt : (cs : List ℕ) (n : ℕ) → n < 2 ^ 16 → digits16 cs n < 2 ^ 16
unfolding digits16
digits16-lt [] n h = h
digits16-lt (c ∷ cs) n h = ground (arith, digits16-lt cs (n * 10 + (c - 48)))

pub parse_uint16-lt : (s : String) → parse_uint16 s < 2 ^ 16
unfolding parse_uint16
parse_uint16-lt s = digits16-lt (codes s) 0 (omega arith)

digit_code : (d : ℕ) → d < 10 → codes (digit d) ≡ (48 + d) ∷ []
unfolding digit
digit_code zero h = refl
digit_code (suc zero) h = refl
digit_code (suc (suc zero)) h = refl
digit_code (suc (suc (suc zero))) h = refl
digit_code (suc (suc (suc (suc zero)))) h = refl
digit_code (suc (suc (suc (suc (suc zero))))) h = refl
digit_code (suc (suc (suc (suc (suc (suc zero)))))) h = refl
digit_code (suc (suc (suc (suc (suc (suc (suc zero))))))) h = refl
digit_code (suc (suc (suc (suc (suc (suc (suc (suc zero)))))))) h = refl
digit_code (suc (suc (suc (suc (suc (suc (suc (suc (suc zero))))))))) h = refl
digit_code (suc (suc (suc (suc (suc (suc (suc (suc (suc (suc d)))))))))) h = absurd (omega arith)

codes-append : (s t : String) → codes (s <> t) ≡ codes s ++ codes t
codes-append String.[] t = rw (nil-append t) refl
codes-append (String.◌∷◌ c s) t = rw (cons-append c s t) (ap (λ cs. code c ∷ cs) (codes-append s t))

pub codes-digit : (d : ℕ) (out : String) → d < 10 → codes (digit d <> out) ≡ (48 + d) ∷ codes out
codes-digit d out h = rw (codes-append (digit d) out, digit_code d h) refl

digits16-digit :
    (d n : ℕ) (cs : List ℕ)
    → d < 10
    → n * 10 + d < 2 ^ 16
    → digits16 ((48 + d) ∷ cs) n ≡ digits16 cs (n * 10 + d)
unfolding digits16
digits16-digit d n cs h b = ground arith

digits16-decimal_loop :
    (fuel n : ℕ) (out : String)
    → n ≤ fuel
    → n < 2 ^ 16
    → digits16 (codes (decimal_loop fuel n out)) 0 ≡ digits16 (codes out) n
unfolding decimal_loop
digits16-decimal_loop zero n out h b = rw (codes-digit (n % 10) out (omega arith)) (
    digits16-digit (n % 10) 0 (codes out) (omega arith) (omega arith)
    ∙ ap (digits16 (codes out)) (omega arith))
digits16-decimal_loop (suc fuel) n out h b = elim (Bool-cases (ltb n 10)) [
  | inl e ↦
      rw (e, decimal_loop, codes-digit n out (ground arith))
        (digits16-digit n 0 (codes out) (ground arith) (omega arith)
          ∙ ap (digits16 (codes out)) (omega arith))
  | inr e ↦
      let rest = digit (n % 10) <> out in
      rw (e, decimal_loop)
        (digits16-decimal_loop fuel (n / 10) rest (ground arith) (omega arith)
          ∙ ap (λ cs. digits16 cs (n / 10)) (codes-digit (n % 10) out (omega arith))
          ∙ digits16-digit (n % 10) (n / 10) (codes out) (omega arith) (omega arith)
          ∙ ap (digits16 (codes out)) (omega arith))
]

pub parse_uint16-decimal : (n : ℕ) → n < 2 ^ 16 → parse_uint16 (decimal n) ≡ n
unfolding parse_uint16 decimal
parse_uint16-decimal n h = digits16-decimal_loop n n "" (omega arith) h

-- A digit is no white space and no colon.
abbrev IsPlain : String → Type 0
IsPlain s = (is_solid s ≡ true) × (lacks b':' s ≡ true)

digit-IsPlain : (d : ℕ) → IsPlain (digit d)
unfolding digit is_solid is_space lacks
digit-IsPlain zero = (refl, refl)
digit-IsPlain (suc zero) = (refl, refl)
digit-IsPlain (suc (suc zero)) = (refl, refl)
digit-IsPlain (suc (suc (suc zero))) = (refl, refl)
digit-IsPlain (suc (suc (suc (suc zero)))) = (refl, refl)
digit-IsPlain (suc (suc (suc (suc (suc zero))))) = (refl, refl)
digit-IsPlain (suc (suc (suc (suc (suc (suc zero)))))) = (refl, refl)
digit-IsPlain (suc (suc (suc (suc (suc (suc (suc zero))))))) = (refl, refl)
digit-IsPlain (suc (suc (suc (suc (suc (suc (suc (suc zero)))))))) = (refl, refl)
digit-IsPlain _ = (refl, refl)

IsPlain-append : (s t : String) → IsPlain s → IsPlain t → IsPlain (s <> t)
IsPlain-append s t (a, b) (c, d) = (is_solid-append s t a c, lacks-append b':' s t b d)

decimal_loop-IsPlain : (fuel n : ℕ) (out : String) → IsPlain out → IsPlain (decimal_loop fuel n out)
unfolding decimal_loop
decimal_loop-IsPlain zero n out h = IsPlain-append (digit (n % 10)) out (digit-IsPlain (n % 10)) h
decimal_loop-IsPlain (suc fuel) n out h = elim (Bool-cases (ltb n 10)) [
  | inl e ↦ rw (e, decimal_loop) (IsPlain-append (digit n) out (digit-IsPlain n) h)
  | inr e ↦
      rw (e, decimal_loop)
        (decimal_loop-IsPlain fuel (n / 10) (digit (n % 10) <> out)
          (IsPlain-append (digit (n % 10)) out (digit-IsPlain (n % 10)) h))
]

pub decimal-is_solid : (n : ℕ) → is_solid (decimal n) ≡ true
unfolding decimal is_solid lacks
decimal-is_solid n = (decimal_loop-IsPlain n n "" (refl, refl)).0

pub decimal-lacks : (n : ℕ) → lacks b':' (decimal n) ≡ true
unfolding decimal is_solid lacks
decimal-lacks n = (decimal_loop-IsPlain n n "" (refl, refl)).1
