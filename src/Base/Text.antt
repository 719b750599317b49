-- ===== src/Base/Text.antt =====
-- `str` and `String` of Rust's standard library as lists of bytes, and `i64`.
use Prim.Native.Nat.{ℕ, zero, suc, ◌+◌, ◌-◌, ◌*◌}
use Prim.Native.Char.{code}
use Prim.Native.String.{String}
use mathlib.Core.Path.{◌≡◌}
use mathlib.Core.Logic.{◌↔◌}
use mathlib.Core.Bool.{Bool, true, false, ◌&&◌}
use mathlib.Core.List.{List, [], ◌∷◌}
use mathlib.Core.Option.{Option, none, some}
use native.Mathlib.Omega.{arith}
use protoclaw.Base.Tests.{if◌then◌else◌, leb, ltb, nat_eqb, nat_eqb_iff, KeyEq}

abbrev pub Text : Type 0
Text = List ℕ

-- The bytes of an ASCII literal.
abbrev pub bytes : String → Text
bytes String.[] = []
bytes (String.◌∷◌ c s) = code c ∷ bytes s

-- `u8::to_ascii_lowercase`.
abbrev pub lower : ℕ → ℕ
lower c = if leb b'A' c && leb c b'Z' then c + 32 else c

-- `i64`, with `negsuc n` for -(n + 1); the type is used for values between -2^63 and 2^63 - 1.
pub data ℤ : Type 0 where
  pos : ℕ → ℤ
  negsuc : ℕ → ℤ

abbrev pub int_eqb : ℤ → ℤ → Bool
int_eqb (pos m) (pos n) = nat_eqb m n
int_eqb (negsuc m) (negsuc n) = nat_eqb m n
int_eqb _ _ = false

pub int_eqb_iff : (a b : ℤ) → (a ≡ b) ↔ (int_eqb a b ≡ true)
int_eqb_iff (pos m) (pos n) = ground (arith, nat_eqb_iff m n)
int_eqb_iff (pos m) (negsuc n) = ground arith
int_eqb_iff (negsuc m) (pos n) = ground arith
int_eqb_iff (negsuc m) (negsuc n) = ground (arith, nat_eqb_iff m n)

instance abbrev pub int_eq : KeyEq ℤ
int_eq = record { same_iff = int_eqb_iff; same = int_eqb }

digit_value : ℕ → Option ℕ
digit_value c = if leb b'0' c && leb c b'9' then some (c - b'0') else none

parse_digits : ℕ → Text → Option ℕ
unfolding digit_value
parse_digits acc [] = some acc
parse_digits acc (c ∷ cs) = elim (digit_value c) [
  | none ↦ none
  | some d ↦ parse_digits (acc * 10 + d) cs
]

magnitude : Text → Option ℕ
unfolding parse_digits
magnitude [] = none
magnitude (c ∷ cs) = parse_digits 0 (c ∷ cs)

negate : ℕ → ℤ
negate zero = pos 0
negate (suc n) = negsuc n

-- `str::parse::<i64>`: an optional sign, then at least one decimal digit and nothing else, and a
-- value in range.
unfoldable pub parse_i64 : Text → Option ℤ
unfolding magnitude negate
parse_i64 [] = none
parse_i64 (c ∷ cs) =
    if nat_eqb c b'-'
    then elim (magnitude cs) [
      | none ↦ none
      | some n ↦ if leb n 9223372036854775808 then some (negate n) else none
    ]
    else elim (magnitude (if nat_eqb c b'+' then cs else c ∷ cs)) [
      | none ↦ none
      | some n ↦ if ltb n 9223372036854775808 then some (pos n) else none
    ]
