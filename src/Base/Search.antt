-- ===== src/Base/Search.antt =====
-- Searching in a `str` of Rust's standard library: `find`, `rfind`, `matches` and `replace` with
-- a text as the pattern. Positions are numbers of bytes.
pub mod Laws
use Prim.Native.Nat.{ℕ, zero, suc, ◌-◌}
use mathlib.Core.Bool.{Bool, true, false}
use mathlib.Core.List.{List, [], ◌∷◌, ◌++◌}
use mathlib.Core.Option.{Option, none, some}
use protoclaw.Base.Tests.{if◌then◌else◌, nat_eqb}
use protoclaw.Base.Lists.{length}
use protoclaw.Base.Text.{Text}

unfoldable pub starts_with : Text → Text → Bool
starts_with [] s = true
starts_with (p ∷ ps) [] = false
starts_with (p ∷ ps) (c ∷ s) = let rest = starts_with ps s in if nat_eqb p c then rest else false

-- The position of the first occurrence.
unfoldable pub find : Text → Text → Option ℕ
unfolding starts_with
find p [] = if starts_with p [] then some 0 else none
find p (c ∷ s) =
    let later = find p s in
    if starts_with p (c ∷ s) then some 0 else elim later [ none ↦ none | some n ↦ some (suc n) ]

-- The position of the last occurrence.
unfoldable pub rfind : Text → Text → Option ℕ
unfolding starts_with
rfind p [] = if starts_with p [] then some 0 else none
rfind p (c ∷ s) = elim (rfind p s) [
  | some n ↦ some (suc n)
  | none ↦ if starts_with p (c ∷ s) then some 0 else none
]

-- The occurrences from the left that do not overlap, behind `skip` bytes.
unfoldable pub count_matches : Text → (skip : ℕ) → Text → ℕ
unfolding starts_with
count_matches p skip [] = 0
count_matches p (suc skip) (c ∷ s) = count_matches p skip s
count_matches p zero (c ∷ s) =
    let here = count_matches p (length p - 1) s in
    let later = count_matches p zero s in if starts_with p (c ∷ s) then suc here else later

-- Replaces these occurrences by `r`.
unfoldable pub replace : (p r : Text) → (skip : ℕ) → Text → Text
unfolding starts_with
replace p r skip [] = []
replace p r (suc skip) (c ∷ s) = replace p r skip s
replace p r zero (c ∷ s) =
    let here = replace p r (length p - 1) s in
    let later = replace p r zero s in if starts_with p (c ∷ s) then r ++ here else c ∷ later

unfoldable pub take : ℕ → Text → Text
take zero s = []
take (suc n) [] = []
take (suc n) (c ∷ s) = c ∷ take n s

unfoldable pub drop : ℕ → Text → Text
drop zero s = s
drop (suc n) [] = []
drop (suc n) (c ∷ s) = drop n s
