-- ===== src/Base/Map.antt =====
-- `HashMap` and `HashSet` of Rust's standard library, as association lists: lookup, insertion
-- and removal by key. The order of the list stands for the unspecified iteration order.
use mathlib.Core.Path.{◌≡◌, refl}
use mathlib.Core.Bool.{Bool, true, false}
use mathlib.Core.List.{List, [], ◌∷◌}
use mathlib.Core.Option.{Option, none, some}
use native.Mathlib.Omega.{arith}
use protoclaw.Base.Tests.{if◌then◌else◌, KeyEq, ◌=?◌}
use protoclaw.Base.Lists.{retain}

abbrev pub Map {ℓ κ} : Type ℓ → Type κ → Type (ℓ ⊔ κ)
Map K V = List (K × V)

module _ {ℓ κ} {K : Type ℓ} {V : Type κ} ⦃e : KeyEq K⦄ where
  unfoldable pub get : K → Map K V → Option V
  get k [] = none
  get k ((j, v) ∷ entries) = let later = get k entries in if j =? k then some v else later

  -- The value under a key that is there is replaced in its place.
  unfoldable pub insert : K → V → Map K V → Map K V
  insert k v [] = (k, v) ∷ []
  insert k v ((j, old) ∷ entries) =
      let entries' = insert k v entries in if j =? k then (j, v) ∷ entries else (j, old) ∷ entries'

  -- Removes the entry of `k`.
  unfoldable pub remove : K → Map K V → Map K V
  remove k [] = []
  remove k ((j, w) ∷ m) = let rest = remove k m in if j =? k then rest else (j, w) ∷ rest

  pub get-insert :
      (k j : K) (v : V) (m : Map K V) → get j (insert k v m) ≡ (if k =? j then some v else get j m)
  unfolding get insert
  get-insert k j v [] = refl
  get-insert k j v ((i, w) ∷ m) =
      ground (arith, e.same_iff k j, e.same_iff i k, e.same_iff i j, get-insert k j v m)

  pub get-remove : (k j : K) (m : Map K V) → get j (remove k m) ≡ (if k =? j then none else get j m)
  unfolding get remove
  get-remove k j [] = ground arith
  get-remove k j ((i, w) ∷ m) =
      ground (arith, e.same_iff k j, e.same_iff i k, e.same_iff i j, get-remove k j m)

abbrev pub Set {ℓ} : Type ℓ → Type ℓ
Set K = List K

module _ {ℓ} {K : Type ℓ} ⦃e : KeyEq K⦄ where
  unfoldable pub contains : K → Set K → Bool
  contains k [] = false
  contains k (j ∷ s) = if j =? k then true else contains k s

  unfoldable pub add : K → Set K → Set K
  add k [] = k ∷ []
  add k (j ∷ s) = if j =? k then j ∷ s else j ∷ add k s

  unfoldable pub discard : K → Set K → Set K
  discard k [] = []
  discard k (j ∷ s) = let rest = discard k s in if j =? k then rest else j ∷ rest

  pub contains-add :
      (k j : K) (s : Set K) → contains j (add k s) ≡ (if k =? j then true else contains j s)
  unfolding contains add
  contains-add k j [] = refl
  contains-add k j (i ∷ s) =
      ground (arith, e.same_iff k j, e.same_iff i k, e.same_iff i j, contains-add k j s)

  pub contains-discard :
      (k j : K) (s : Set K) → contains j (discard k s) ≡ (if k =? j then false else contains j s)
  unfolding contains discard
  contains-discard k j [] = ground arith
  contains-discard k j (i ∷ s) =
      ground (arith, e.same_iff k j, e.same_iff i k, e.same_iff i j, contains-discard k j s)

-- The value that is there, passed through a function, or else the other one.
abbrev pub or_else {ℓ} : {V : Type ℓ} → (V → V) → Option V → Option V → Option V
or_else f (some v) other = some (f v)
or_else f none other = other

-- Each key once, as in a `HashMap`.
module _ {ℓ κ} {K : Type ℓ} {V : Type κ} ⦃e : KeyEq K⦄ where
  abbrev pub Distinct : Map K V → Type κ
  Distinct [] = Unit
  Distinct ((k, v) ∷ m) = (get k m ≡ none) × Distinct m

  -- `target.extend(source.drain())`, with each value passed through a function.
  unfoldable pub extend : (V → V) → Map K V → Map K V → Map K V
  extend f [] target = target
  extend f ((k, v) ∷ source) target = extend f source (insert k (f v) target)

  pub insert-Distinct : (k : K) (v : V) (m : Map K V) → Distinct m → Distinct (insert k v m)
  unfolding insert get
  insert-Distinct k v [] d = (refl, tt)
  insert-Distinct k v ((j, w) ∷ m) d =
      ground (arith, e.same_iff j k, e.same_iff k j, get-insert k j v m, insert-Distinct k v m d.1)

  pub extend-Distinct :
      (f : V → V) (source target : Map K V) → Distinct target → Distinct (extend f source target)
  unfolding extend
  extend-Distinct f [] target d = d
  extend-Distinct f ((k, v) ∷ source) target d =
      extend-Distinct f source (insert k (f v) target) (insert-Distinct k (f v) target d)

  pub get-extend :
      (f : V → V) (k : K) (source target : Map K V)
      → Distinct source
      → get k (extend f source target) ≡ or_else f (get k source) (get k target)
  unfolding extend get
  get-extend f k [] target d = refl
  get-extend f k ((j, v) ∷ source) target d = ground (
    arith,
    e.same_iff j k,
    get-insert j k (f v) target,
    get-extend f k source (insert j (f v) target) d.1,
  )

  -- A map of which only some entries are kept.
  pub get-retain :
      (p : K × V → Bool) (k : K) (m : Map K V)
      → Distinct m
      → get k (retain p m)
        ≡ elim (get k m) [ none ↦ none | some v ↦ if p (k, v) then some v else none ]
  unfolding get
  get-retain p k [] d = refl
  get-retain p k ((j, v) ∷ m) d = ground (arith, e.same_iff j k, get-retain p k m d.1)

  pub retain-Distinct : (p : K × V → Bool) (m : Map K V) → Distinct m → Distinct (retain p m)
  retain-Distinct p [] d = tt
  retain-Distinct p ((j, v) ∷ m) d = ground (arith, get-retain p j m d.1, retain-Distinct p m d.1)
