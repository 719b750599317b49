-- ===== src/Base/Lists.antt =====
-- Lists measured and indexed by native numbers, under the library's names, and the iterator
-- methods of Rust that take a Boolean test.
use Prim.Native.Nat.{ℕ, zero, suc, ◌+◌, ◌≤◌}
use mathlib.Core.Path.{◌≡◌, refl}
use mathlib.Core.Bool.{Bool, true, false, ◌||◌}
use mathlib.Core.List.{List, [], ◌∷◌, ◌++◌}
use mathlib.Core.Option.{Option, none, some}
use native.Mathlib.Omega.{arith}
use protoclaw.Base.Tests.{if◌then◌else◌}

module _ {ℓ} {A : Type ℓ} where
  abbrev pub length : List A → ℕ
  length [] = 0
  length (x ∷ xs) = suc (length xs)

  abbrev pub get_elem? : List A → ℕ → Option A
  get_elem? [] i = none
  get_elem? (x ∷ xs) zero = some x
  get_elem? (x ∷ xs) (suc i) = get_elem? xs i

  abbrev pub is_empty : List A → Bool
  is_empty [] = true
  is_empty (x ∷ xs) = false

  -- `Option<Vec<_>>::unwrap_or_default`.
  abbrev pub or_default : Option (List A) → List A
  or_default none = []
  or_default (some xs) = xs

  -- `Vec::retain`, and `Iterator::filter`.
  abbrev pub retain : (A → Bool) → List A → List A
  retain p [] = []
  retain p (x ∷ xs) = let rest = retain p xs in if p x then x ∷ rest else rest

  -- `iter().any(p)`.
  abbrev pub any : (A → Bool) → List A → Bool
  any p [] = false
  any p (x ∷ xs) = p x || any p xs

  -- `iter().filter(p).count()`.
  abbrev pub count_where : (A → Bool) → List A → ℕ
  count_where p [] = 0
  count_where p (x ∷ xs) = let rest = count_where p xs in if p x then suc rest else rest

  pub length-append : (xs ys : List A) → length (xs ++ ys) ≡ length xs + length ys
  length-append [] ys = omega arith
  length-append (x ∷ xs) ys = omega (arith, length-append xs ys)

  pub count_where-le-length : (p : A → Bool) (xs : List A) → count_where p xs ≤ length xs
  count_where-le-length p [] = omega arith
  count_where-le-length p (x ∷ xs) = ground (arith, count_where-le-length p xs)

module _ {ℓ} {A : Type ℓ} where
  pub count_where-append :
      (p : A → Bool) (xs ys : List A)
      → count_where p (xs ++ ys) ≡ count_where p xs + count_where p ys
  count_where-append p [] ys = omega arith
  count_where-append p (x ∷ xs) ys = ground (arith, count_where-append p xs ys)

  pub length-retain : (p : A → Bool) (xs : List A) → length (retain p xs) ≡ count_where p xs
  length-retain p [] = refl
  length-retain p (x ∷ xs) = ground (arith, length-retain p xs)
