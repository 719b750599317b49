-- ===== src/Base/Tests.antt =====
-- Boolean tests on the native numbers, the conditional, and equality of keys.
use Prim.Native.Nat.{ℕ, ◌≤◌, ◌<◌, compare, Ordering}
use mathlib.Core.Path.{◌≡◌, refl}
use mathlib.Core.Logic.{◌↔◌, ◌⊎◌, inl, inr}
use mathlib.Core.Bool.{Bool, true, false}
use mathlib.Core.Option.{Option, none, some}
use mathlib.Core.List.{List, [], ◌∷◌}
use native.Mathlib.Omega.{arith}

abbrev pub ltb : ℕ → ℕ → Bool
ltb a b = elim (compare a b) [ Ordering.lt ↦ true | _ ↦ false ]

abbrev pub leb : ℕ → ℕ → Bool
leb a b = elim (compare a b) [ Ordering.gt ↦ false | _ ↦ true ]

abbrev pub nat_eqb : ℕ → ℕ → Bool
nat_eqb a b = elim (compare a b) [ Ordering.eq ↦ true | _ ↦ false ]

infix 1 if◌then◌else◌
abbrev pub if◌then◌else◌ {ℓ} : {A : Type ℓ} → Bool → A → A → A
if true then x else y = x
if false then x else y = y

pub ltb→lt : (a b : ℕ) → ltb a b ≡ true → a < b
ltb→lt a b h = ground arith

pub lt→ltb : (a b : ℕ) → a < b → ltb a b ≡ true
lt→ltb a b h = ground arith

pub le→ltb : (a b : ℕ) → b ≤ a → ltb a b ≡ false
le→ltb a b h = ground arith

pub leb→le : (a b : ℕ) → leb a b ≡ true → a ≤ b
leb→le a b h = ground arith

pub nat_eqb_iff : (a b : ℕ) → (a ≡ b) ↔ (nat_eqb a b ≡ true)
nat_eqb_iff a b = ground arith

pub Bool-cases : (b : Bool) → (b ≡ true) ⊎ (b ≡ false)
Bool-cases true = inl refl
Bool-cases false = inr refl

pub Option-cases {ℓ} : {A : Type ℓ} (o : Option A) → (o ≡ none) ⊎ ((a : A) × (o ≡ some a))
Option-cases none = inl refl
Option-cases (some a) = inr (a, refl)

-- `==` on a type that the program compares or uses as a key.
infix 50 ◌=?◌
pub record KeyEq {ℓ} (K : Type ℓ) : Type ℓ where
  pub same : (j k : K) → Bool
  pub same_iff : (j k : K) → (j ≡ k) ↔ (same j k ≡ true)

abbrev pub ◌=?◌ {ℓ} : {K : Type ℓ} ⦃keys : KeyEq K⦄ (j k : K) → Bool
◌=?◌ ⦃keys⦄ j k = keys.same j k

instance abbrev pub nat_eq : KeyEq ℕ
nat_eq = record { same_iff = nat_eqb_iff; same = nat_eqb }

module _ {ℓ} {K : Type ℓ} ⦃e : KeyEq K⦄ where
  pub eq_self : (k : K) → (k =? k) ≡ true
  eq_self k = (e.same_iff k k).0 refl

  unfoldable pub list_eqb : (js ks : List K) → Bool
  list_eqb [] [] = true
  list_eqb (j ∷ js) (k ∷ ks) = let tails = list_eqb js ks in if j =? k then tails else false
  list_eqb _ _ = false

  pub list_eqb_iff : (js ks : List K) → (js ≡ ks) ↔ (list_eqb js ks ≡ true)
  unfolding list_eqb
  list_eqb_iff [] [] = ground arith
  list_eqb_iff [] (k ∷ ks) = ground arith
  list_eqb_iff (j ∷ js) [] = ground arith
  list_eqb_iff (j ∷ js) (k ∷ ks) = ground (arith, e.same_iff j k, list_eqb_iff js ks)

instance abbrev pub list_eq {ℓ} : {K : Type ℓ} ⦃keys : KeyEq K⦄ → KeyEq (List K)
list_eq = record { same_iff = list_eqb_iff; same = list_eqb }
